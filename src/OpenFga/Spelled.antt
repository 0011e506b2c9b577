-- ===== src/OpenFga/Spelled.antt =====
-- How the replacer of `relationAtScope` spells the name of a permission as a relation, character by
-- character.
use Prim.Native.Char.{Char}
use Prim.Native.String.{◌++◌ as append}
use text.Mathlib.TextLemmas.{cons-append, nil-append, head-eq_of_cons-eq}
use fine_grained_permissions.Base.{
  String, false, ◌≡◌, ◌≢◌, ◌↔◌, ◌⊎◌, inl, inr, refl, sym, ap, ◌∙◌, subst, ◌==◌, eq_refl, text_cases,
}
use fine_grained_permissions.OpenFga.{relation_name}

-- A dot or a dash is written as an underscore, any other character as it is.
abbrev pub Letter : Char → Char → Type 0
Letter c d = (((c ≡ ".") ⊎ (c ≡ "-")) × (d ≡ "_")) ⊎ ((c ≢ ".") × (c ≢ "-") × (d ≡ c))

abbrev pub Spelled : String → String → Type 0
Spelled String.[] r = r ≡ ""
Spelled (String.◌∷◌ c s) r =
    (d : Char) × (t : String) × (r ≡ String.◌∷◌ d t) × Letter c d × Spelled s t

char_of : (c d : Char) → String.◌∷◌ c "" ≡ String.◌∷◌ d "" → c ≡ d
char_of c d e = head-eq_of_cons-eq e

not_char : (c d : Char) → (String.◌∷◌ c "" == String.◌∷◌ d "") ≡ false → c ≢ d
not_char c d h e =
    cc (h, ap (λ x. String.◌∷◌ x "" == String.◌∷◌ d "") e ∙ eq_refl (String.◌∷◌ d ""))

underscored : (s : String) → append "_" s ≡ String.◌∷◌ "_" s
underscored s = cons-append "_" "" s ∙ ap (λ t. String.◌∷◌ "_" t) (nil-append s)

name_cons :
    (c : Char) (s : String)
    → (d : Char) × (relation_name (String.◌∷◌ c s) ≡ String.◌∷◌ d (relation_name s)) × Letter c d
name_cons c s = elim (text_cases (String.◌∷◌ c "") ".") [
  | inl dot ↦ ("_", rw dot (underscored (relation_name s)), inl (inl (char_of c "." dot), refl))
  | inr other ↦ elim (text_cases (String.◌∷◌ c "") "-") [
    | inl dash ↦
        ("_", rw dash (underscored (relation_name s)), inl (inr (char_of c "-" dash), refl))
    | inr plain ↦
        (c, rw (other, plain) refl, inr (not_char c "." other, not_char c "-" plain, refl))
  ]
]

relation_name-Spelled : (p : String) → Spelled p (relation_name p)
relation_name-Spelled String.[] = refl
relation_name-Spelled (String.◌∷◌ c s) =
    let (d, same, letter) = name_cons c s in
    (d, relation_name s, same, letter, relation_name-Spelled s)

Letter-same : (c d e : Char) → Letter c d → Letter c e → d ≡ e
Letter-same c d e (inl (_, h)) (inl (_, k)) = h ∙ sym k
Letter-same c d e (inl (inl dot, _)) (inr (other, _, _)) = absurd (other dot)
Letter-same c d e (inl (inr dash, _)) (inr (_, plain, _)) = absurd (plain dash)
Letter-same c d e (inr (other, _, _)) (inl (inl dot, _)) = absurd (other dot)
Letter-same c d e (inr (_, plain, _)) (inl (inr dash, _)) = absurd (plain dash)
Letter-same c d e (inr (_, _, h)) (inr (_, _, k)) = h ∙ sym k

Spelled-relation_name : (p r : String) → Spelled p r → r ≡ relation_name p
Spelled-relation_name String.[] r e = e
Spelled-relation_name (String.◌∷◌ c s) r (d, t, e, letter, rest) =
    let (k, same, other) = name_cons c s in
    e
    ∙ ap (λ x. String.◌∷◌ x t) (Letter-same c d k letter other)
    ∙ ap (λ x. String.◌∷◌ k x) (Spelled-relation_name s t rest)
    ∙ sym same

pub relation_name_iff : (p r : String) → (r ≡ relation_name p) ↔ Spelled p r
relation_name_iff p r =
    (λ e. subst (λ x. Spelled p x) (sym e) (relation_name-Spelled p), Spelled-relation_name p r)

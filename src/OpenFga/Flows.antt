-- ===== src/OpenFga/Flows.antt =====
-- Which permissions flow down from a type of resource, told from their names: the first part of
-- `relationAtScope` after the catalogue.
use Prim.Native.String.{◌++◌ as append}
use text.Mathlib.TextLemmas.{cons-append, nil-append}
use fine_grained_permissions.Base.{
  String, true, ◌≡◌, ◌⊎◌, inl, inr, refl, sym, ap, ◌∙◌, subst, ◌==◌, eq_iff, arith, Bool-cases,
  lacks, text_cases,
}
use fine_grained_permissions.Api.{ResourceType, application, controller, model}
use fine_grained_permissions.OpenFga.{prefix, inherits}

-- The name is the word, or the word and a dot and something more.
abbrev pub Begins : String → String → Type 0
Begins word p = (p ≡ word) ⊎ ((rest : String) × (p ≡ append word (append "." rest)))

-- The permission flows down from the type: all do from the controller.
abbrev pub Flows : ResourceType → String → Type 0
Flows t p =
    (t ≡ controller)
    ⊎ ((t ≡ model)
        × (Begins "application" p ⊎ Begins "unit" p ⊎ Begins "machine" p ⊎ Begins "policy" p))
    ⊎ ((t ≡ application) × (Begins "unit" p ⊎ Begins "machine" p))

prefix-Begins : (p : String) → Begins (prefix p) p
prefix-Begins String.[] = inl refl
prefix-Begins (String.◌∷◌ c s) = elim (text_cases (String.◌∷◌ c "") ".") [
  | inl dot ↦ rw dot (
      inr (
        s,
        ap (λ t. String.◌∷◌ c t) (sym (nil-append s))
            ∙ sym (cons-append c "" s)
            ∙ ap (λ m. append m s) dot
            ∙ sym (nil-append (append "." s)),
      ))
  | inr other ↦ rw other (elim (prefix-Begins s) [
    | inl whole ↦ inl (ap (λ t. String.◌∷◌ c t) whole)
    | inr (rest, split) ↦ inr (rest, ap (λ t. String.◌∷◌ c t) split ∙ sym (cons-append c _ _))
  ])
]

prefix-plain : (word : String) → lacks "." word ≡ true → prefix word ≡ word
prefix-plain String.[] h = refl
prefix-plain (String.◌∷◌ c word) h = elim (Bool-cases (String.◌∷◌ c "" == ".")) [
  | inl here ↦ absurd (cc (rw here at h))
  | inr later ↦ rw (later, prefix-plain word (rw later at h)) refl
]

prefix-dotted :
    (word rest : String) → lacks "." word ≡ true → prefix (append word (append "." rest)) ≡ word
prefix-dotted String.[] rest h = rw (nil-append (append "." rest), cons-append "." "" rest) refl
prefix-dotted (String.◌∷◌ c word) rest h = elim (Bool-cases (String.◌∷◌ c "" == ".")) [
  | inl here ↦ absurd (cc (rw here at h))
  | inr later ↦
      rw (cons-append c word (append "." rest), later, prefix-dotted word rest (rw later at h)) refl
]

Begins-prefix : (word p : String) → lacks "." word ≡ true → Begins word p → prefix p ≡ word
Begins-prefix word p h (inl whole) = rw whole (prefix-plain word h)
Begins-prefix word p h (inr (rest, split)) = rw split (prefix-dotted word rest h)

Begins-of : (word p : String) → prefix p ≡ word → Begins word p
Begins-of word p e = subst (λ w. Begins w p) e (prefix-Begins p)

pub inherits-Flows : (t : ResourceType) (p : String) → inherits t (prefix p) ≡ true → Flows t p
unfolding inherits
inherits-Flows t p h = elim (text_cases t controller) [
  | inl top ↦ inl top
  | inr low ↦ elim (text_cases t model) [
    | inl middle ↦ inr (
        inl (
          middle,
          elim (text_cases (prefix p) "application") [
            | inl e ↦ inl (Begins-of _ p e)
            | inr a ↦ elim (text_cases (prefix p) "unit") [
              | inl e ↦ inr (inl (Begins-of _ p e))
              | inr b ↦ elim (text_cases (prefix p) "machine") [
                | inl e ↦ inr (inr (inl (Begins-of _ p e)))
                | inr c ↦
                    inr (inr (inr (Begins-of _ p (ground (arith, eq_iff (prefix p) "policy")))))
              ]
            ]
          ],
        ))
    | inr lower ↦ elim (text_cases t application) [
      | inl bottom ↦ inr (
          inr (
            bottom,
            elim (text_cases (prefix p) "unit") [
              | inl e ↦ inl (Begins-of _ p e)
              | inr b ↦ inr (Begins-of _ p (ground (arith, eq_iff (prefix p) "machine")))
            ],
          ))
      | inr leaf ↦ absurd (cc (rw (low, lower, leaf) at h))
    ]
  ]
]

pub Flows-inherits : (t : ResourceType) (p : String) → Flows t p → inherits t (prefix p) ≡ true
unfolding inherits
Flows-inherits t p (inl top) = rw top refl
Flows-inherits t p (inr (inl (middle, inl b))) =
    rw (middle, Begins-prefix "application" p refl b) refl
Flows-inherits t p (inr (inl (middle, inr (inl b)))) =
    rw (middle, Begins-prefix "unit" p refl b) refl
Flows-inherits t p (inr (inl (middle, inr (inr (inl b))))) =
    rw (middle, Begins-prefix "machine" p refl b) refl
Flows-inherits t p (inr (inl (middle, inr (inr (inr b))))) =
    rw (middle, Begins-prefix "policy" p refl b) refl
Flows-inherits t p (inr (inr (bottom, inl b))) = rw (bottom, Begins-prefix "unit" p refl b) refl
Flows-inherits t p (inr (inr (bottom, inr b))) = rw (bottom, Begins-prefix "machine" p refl b) refl

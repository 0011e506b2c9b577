-- ===== src/Base/Texts.antt =====
-- Texts that a separator takes apart.
use Prim.Native.Char.{Char}
use Prim.Native.String.{String, ◌++◌ as append}
use text.Mathlib.TextLemmas.{cons-append, nil-append, head-eq_of_cons-eq, tail-eq_of_cons-eq}
use text.Mathlib.TextPositions.{eq_refl}
use mathlib.Core.Path.{◌≡◌, refl, sym, ap, ◌∙◌}
use mathlib.Core.Logic.{inl, inr}
use mathlib.Core.Bool.{Bool, true, not, ◌&&◌, and-eq-true_iff}
use Prim.Native.Nat.{ℕ, suc, ◌+◌}
use native.Mathlib.Omega.{arith}
use fine_grained_permissions.Base.Tests.{◌==◌, Bool-cases, if◌then◌else◌}

-- How often the separator stands in the text.
abbrev pub occurrences : Char → String → ℕ
occurrences sep String.[] = 0
occurrences sep (String.◌∷◌ c s) =
    if String.◌∷◌ c "" == String.◌∷◌ sep "" then suc (occurrences sep s) else occurrences sep s

-- The text has no separator.
abbrev pub lacks : Char → String → Bool
lacks sep String.[] = true
lacks sep (String.◌∷◌ c s) = not (String.◌∷◌ c "" == String.◌∷◌ sep "") && lacks sep s

module _ (sep : Char) where
  abbrev mark : String
  mark = String.◌∷◌ sep ""

  starts_lacks :
      (c : Char) (s r a : String)
      → lacks sep (String.◌∷◌ c s) ≡ true
      → append mark a ≡ String.◌∷◌ c r
      → ⊥
  starts_lacks c s r a h e =
      let (first, _) = (and-eq-true_iff (not (String.◌∷◌ c "" == mark)) (lacks sep s)).0 h in
      let head : mark ≡ String.◌∷◌ c "" =
        ap (λ d. String.◌∷◌ d "") (head-eq_of_cons-eq (sym (cons-append _ "" a) ∙ e)) in
      cc (rw (← head) at first, eq_refl mark)

  -- A text with one separator, and any after it, is taken apart at the first in one way.
  pub lacks_inj :
      (s t a b : String)
      → lacks sep s ≡ true
      → lacks sep t ≡ true
      → append s (append mark a) ≡ append t (append mark b)
      → (s ≡ t) × (a ≡ b)
  lacks_inj String.[] String.[] a b hs ht e = (
    refl,
    sym (nil-append a)
        ∙ tail-eq_of_cons-eq (
            sym (cons-append _ "" a)
            ∙ sym (nil-append (append mark a))
            ∙ e
            ∙ nil-append (append mark b)
            ∙ cons-append _ "" b)
        ∙ nil-append b,
  )
  lacks_inj String.[] (String.◌∷◌ d t) a b hs ht e = absurd (
      starts_lacks d t (append t (append mark b)) a ht
        (sym (nil-append (append mark a)) ∙ e ∙ cons-append d t (append mark b)))
  lacks_inj (String.◌∷◌ c s) String.[] a b hs ht e = absurd (
      starts_lacks c s (append s (append mark a)) b hs
        (sym (nil-append (append mark b)) ∙ sym e ∙ cons-append c s (append mark a)))
  lacks_inj (String.◌∷◌ c s) (String.◌∷◌ d t) a b hs ht e =
      let whole = sym (cons-append c s (append mark a)) ∙ e ∙ cons-append d t (append mark b) in
      let (_, hs') = (and-eq-true_iff (not (String.◌∷◌ c "" == mark)) (lacks sep s)).0 hs in
      let (_, ht') = (and-eq-true_iff (not (String.◌∷◌ d "" == mark)) (lacks sep t)).0 ht in
      let (same, rest) = lacks_inj s t a b hs' ht' (tail-eq_of_cons-eq whole) in
      let head = head-eq_of_cons-eq whole in (λ i. String.◌∷◌ (head i) (same i), rest)

  pub occurrences-append :
      (s t : String) → occurrences sep (append s t) ≡ occurrences sep s + occurrences sep t
  occurrences-append String.[] t = rw (nil-append t) (omega arith)
  occurrences-append (String.◌∷◌ c s) t =
      rw (cons-append c s t) (elim (Bool-cases (String.◌∷◌ c "" == mark)) [
        | inl one ↦ rw one (omega (arith, occurrences-append s t))
        | inr other ↦ rw other (occurrences-append s t)
      ])

  pub lacks-occurrences : (s : String) → occurrences sep s ≡ 0 → lacks sep s ≡ true
  lacks-occurrences String.[] h = refl
  lacks-occurrences (String.◌∷◌ c s) h = elim (Bool-cases (String.◌∷◌ c "" == mark)) [
    | inl one ↦ absurd (omega (arith, rw one at h))
    | inr other ↦ rw other (lacks-occurrences s (rw other at h))
  ]

  pub occurrences-lacks : (s : String) → lacks sep s ≡ true → occurrences sep s ≡ 0
  occurrences-lacks String.[] h = refl
  occurrences-lacks (String.◌∷◌ c s) h = elim (Bool-cases (String.◌∷◌ c "" == mark)) [
    | inl one ↦ absurd (cc (rw one at h))
    | inr other ↦ rw other (occurrences-lacks s (rw other at h))
  ]

-- No colon stands in the text.
abbrev pub no_colon : String → Bool
no_colon s = lacks ":" s

pub colon_inj :
    (s t a b : String)
    → no_colon s ≡ true
    → no_colon t ≡ true
    → append s (append ":" a) ≡ append t (append ":" b)
    → (s ≡ t) × (a ≡ b)
colon_inj = lacks_inj ":"

-- ===== src/Cli/Values.antt =====
-- What Atoi and `csv` return.
use Prim.Native.Char.{code}
use fine_grained_permissions.Base.{
  ℕ, zero, suc, ◌≤◌, String, Option, none, some, List, [], ◌∷◌, ◌≡◌, ◌≢◌, inl, inr, sym, ◌∙◌, subst,
  ◌==◌, arith, eq_iff, leb, leb-le, nat_eq, In, Bool-cases,
}
use fine_grained_permissions.Store.Names.{trim_space}
use fine_grained_permissions.Cli.{csv, trimmed}
use fine_grained_permissions.Cli.Texts.{
  ℤ, pos, negsuc, unsigned, atoi, positive, negative, max_int, split,
}

-- The number fits in 64 bits.
abbrev pub Fits : ℤ → Type 0
Fits (pos n) = n ≤ max_int
Fits (negsuc n) = n ≤ max_int

positive-Fits : (o : Option ℕ) (n : ℤ) → positive o ≡ some n → Fits n
positive-Fits none n h = cc
positive-Fits (some m) n h = elim (Bool-cases (leb m max_int)) [
  | inl fits ↦ let same : pos m ≡ n = cc (rw fits at h) in subst Fits same (leb-le m max_int fits)
  | inr over ↦ absurd (cc (rw over at h))
]

negative-Fits : (o : Option ℕ) (n : ℤ) → negative o ≡ some n → Fits n
negative-Fits none n h = cc
negative-Fits (some zero) n h = let same : pos 0 ≡ n = cc h in subst Fits same (omega arith)
negative-Fits (some (suc m)) n h = elim (Bool-cases (leb m max_int)) [
  | inl fits ↦
      let same : negsuc m ≡ n = cc (rw fits at h) in subst Fits same (leb-le m max_int fits)
  | inr over ↦ absurd (cc (rw over at h))
]

pub atoi-Fits : (s : String) (n : ℤ) → atoi s ≡ some n → Fits n
unfolding atoi
atoi-Fits String.[] n h = cc
atoi-Fits (String.◌∷◌ c s) n h = elim (Bool-cases (nat_eq (code c) b'-')) [
  | inl minus ↦ negative-Fits (unsigned s) n (rw minus at h)
  | inr other ↦ elim (Bool-cases (nat_eq (code c) b'+')) [
    | inl plus ↦ positive-Fits (unsigned s) n (rw (other, plus) at h)
    | inr digit ↦ positive-Fits (unsigned (String.◌∷◌ c s)) n (rw (other, digit) at h)
  ]
]

-- No permission of a list is empty.
abbrev pub AllNamed : List String → Type 0
AllNamed vs = (v : String) → In v vs → v ≢ ""

trimmed-AllNamed : (vs : List String) → AllNamed (trimmed vs)
unfolding trimmed
trimmed-AllNamed [] w i = absurd i
trimmed-AllNamed (v ∷ vs) w i = elim (Bool-cases (trim_space v == "")) [
  | inl empty ↦ trimmed-AllNamed vs w (rw empty at i)
  | inr full ↦ elim (rw full at i) [
    | inl here ↦ λ e. cc (full, (eq_iff (trim_space v) "").1 (sym here ∙ e))
    | inr later ↦ trimmed-AllNamed vs w later
  ]
]

pub csv-AllNamed : (raw : String) → AllNamed (csv raw)
unfolding csv
csv-AllNamed raw = trimmed-AllNamed (split "," raw)

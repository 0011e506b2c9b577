-- ===== src/Cli/Parsing.antt =====
-- What `parseRef` and `csv` accept.
use Prim.Native.Char.{Char}
use Prim.Native.String.{◌++◌ as append}
use text.Mathlib.TextLemmas.{cons-append, nil-append}
use fine_grained_permissions.Base.{
  String, true, some, List, [], ◌∷◌, ◌≡◌, ◌≢◌, ◌↔◌, inl, inr, refl, sym, ap, subst, ◌∙◌, ◌==◌,
  arith, eq_iff, eq_refl, ==-false, In, all-In, Bool-cases, Option-cases, lacks, no_colon, ok,
}
use fine_grained_permissions.Api.{
  ResourceType, ResourceRef, resource_type_valid, application, cloud_credential, controller,
  machine, model, unit,
}
use fine_grained_permissions.Catalog.Types.{all_types}
use fine_grained_permissions.Store.Names.{trim_space}
use fine_grained_permissions.Cli.{parse_ref, csv, trimmed}
use fine_grained_permissions.Cli.Texts.{cut, split, is_mark}

module _ (sep : Char) where
  abbrev mark : String
  mark = String.◌∷◌ sep ""

  cut-parts :
      (s : String) (p : String × String)
      → cut sep s ≡ some p
      → (lacks sep p.0 ≡ true) × (s ≡ append p.0 (append mark p.1))
  unfolding cut
  cut-parts String.[] p h = cc
  cut-parts (String.◌∷◌ c s) p h = elim (Bool-cases (is_mark sep c)) [
    | inl here ↦
        let same : ("", s) ≡ p = cc (rw here at h) in
        subst (λ q. (lacks sep q.0 ≡ true) × (String.◌∷◌ c s ≡ append q.0 (append mark q.1))) same
          (
            refl,
            ap (λ t. String.◌∷◌ c t) (sym (nil-append s))
                ∙ sym (cons-append c "" s)
                ∙ ap (λ m. append m s) ((eq_iff (String.◌∷◌ c "") mark).0 here)
                ∙ sym (nil-append (append mark s)),
          )
    | inr later ↦ elim (Option-cases (cut sep s)) [
      | inl missing ↦ absurd (cc (rw missing at (rw later at h)))
      | inr (q, e) ↦
          let (plain, whole) = cut-parts s q e in
          let same : (String.◌∷◌ c q.0, q.1) ≡ p = cc (rw e at (rw later at h)) in
          subst (λ r. (lacks sep r.0 ≡ true) × (String.◌∷◌ c s ≡ append r.0 (append mark r.1))) same
            (
              rw later plain,
              ap (λ t. String.◌∷◌ c t) whole ∙ sym (cons-append c q.0 (append mark q.1)),
            )
    ]
  ]

  pub parts-cut :
      (a b : String) → lacks sep a ≡ true → cut sep (append a (append mark b)) ≡ some (a, b)
  unfolding cut
  parts-cut String.[] b h =
      rw (nil-append (append mark b), cons-append sep "" b, nil-append b, eq_refl mark) refl
  parts-cut (String.◌∷◌ c a) b h = elim (Bool-cases (is_mark sep c)) [
    | inl here ↦ absurd (cc (rw here at h))
    | inr later ↦ rw (cons-append c a (append mark b), later, parts-cut a b (rw later at h)) refl
  ]

  -- The words with the separator between them.
  abbrev pub join : List String → String
  join [] = ""
  join (w ∷ []) = w
  join (w ∷ ws) = append w (append mark (join ws))

  abbrev pub Lack : List String → Type 0
  Lack [] = Unit
  Lack (w ∷ ws) = (lacks sep w ≡ true) × Lack ws

  split-one : (w : String) → lacks sep w ≡ true → split sep w ≡ w ∷ []
  unfolding split
  split-one String.[] h = refl
  split-one (String.◌∷◌ c w) h = elim (Bool-cases (is_mark sep c)) [
    | inl here ↦ absurd (cc (rw here at h))
    | inr later ↦ rw (later, split-one w (rw later at h)) refl
  ]

  split-first :
      (w r : String) → lacks sep w ≡ true → split sep (append w (append mark r)) ≡ w ∷ split sep r
  unfolding split
  split-first String.[] r h =
      rw (nil-append (append mark r), cons-append sep "" r, nil-append r, eq_refl mark) refl
  split-first (String.◌∷◌ c w) r h = elim (Bool-cases (is_mark sep c)) [
    | inl here ↦ absurd (cc (rw here at h))
    | inr later ↦ rw (cons-append c w (append mark r), later, split-first w r (rw later at h)) refl
  ]

  pub split-join :
      (w : String) (ws : List String) → Lack (w ∷ ws) → split sep (join (w ∷ ws)) ≡ w ∷ ws
  split-join w [] (h, _) = split-one w h
  split-join w (v ∷ vs) (h, hs) =
      split-first w (join (v ∷ vs)) h ∙ ap (λ l. w ∷ l) (split-join v vs hs)

-- A resource that `parseRef` can read: of one of the types, with an identifier.
abbrev pub IsRef : ResourceRef → Type 0
IsRef ref = (resource_type_valid ref.type ≡ true) × (ref.id ≢ "")

valid-In : (t : ResourceType) → resource_type_valid t ≡ true → In t all_types
unfolding resource_type_valid
valid-In t h = ground (
  arith,
  eq_iff t application,
  eq_iff t cloud_credential,
  eq_iff t controller,
  eq_iff t machine,
  eq_iff t model,
  eq_iff t unit,
)

valid-no_colon : (t : ResourceType) → resource_type_valid t ≡ true → no_colon t ≡ true
valid-no_colon t h = all-In (λ u. no_colon u) all_types t refl (valid-In t h)

-- `parseRef` reads exactly the texts TYPE:ID of a type of the API and an identifier that is not empty,
-- whatever else stands in it, and takes them apart at the first colon.
pub parse_ref_iff :
    (raw : String) (ref : ResourceRef)
    → (parse_ref raw ≡ ok ref) ↔ (IsRef ref × (raw ≡ append ref.type (append ":" ref.id)))
unfolding parse_ref
parse_ref_iff raw ref = (to, from)
  where
    to : parse_ref raw ≡ ok ref → IsRef ref × (raw ≡ append ref.type (append ":" ref.id))
    to h = elim (Option-cases (cut ":" raw)) [
      | inl missing ↦ absurd (cc (rw (missing, parse_ref) at h))
      | inr (p, e) ↦ elim (Bool-cases (p.1 == "")) [
        | inl empty ↦ absurd (cc (rw (e, empty, parse_ref) at h))
        | inr full ↦ elim (Bool-cases (resource_type_valid p.0)) [
          | inr unknown ↦ absurd (cc (rw (e, full, unknown, parse_ref) at h))
          | inl known ↦
              let same : record { id = p.1; type = p.0 } ≡ ref =
                cc (rw (e, full, known, parse_ref) at h) in
              let (_, whole) = cut-parts ":" raw p e in
              subst (λ r. IsRef r × (raw ≡ append r.type (append ":" r.id))) same
                ((known, λ empty. cc (rw (empty, eq_refl "") at full)), whole)
        ]
      ]
    ]

    from : IsRef ref × (raw ≡ append ref.type (append ":" ref.id)) → parse_ref raw ≡ ok ref
    from ((known, full), whole) =
        let parts = parts-cut ":" ref.type ref.id (valid-no_colon ref.type known) in
        rw (whole, parse_ref, parts, ==-false ref.id "" full, known) refl

-- A value that `csv` leaves as it is.
abbrev pub IsValue : String → Type 0
IsValue v = (lacks "," v ≡ true) × (trim_space v ≡ v) × (v ≢ "")

abbrev pub AreValues : List String → Type 0
AreValues [] = Unit
AreValues (v ∷ vs) = IsValue v × AreValues vs

values-Lack : (vs : List String) → AreValues vs → Lack "," vs
values-Lack [] h = tt
values-Lack (v ∷ vs) (h, hs) = (h.0, values-Lack vs hs)

trimmed-values : (vs : List String) → AreValues vs → trimmed vs ≡ vs
unfolding trimmed
trimmed-values [] h = refl
trimmed-values (v ∷ vs) ((_, trim, full), hs) =
    rw (trim, ==-false v "" full, trimmed-values vs hs) refl

csv-nothing : csv "" ≡ []
unfolding csv trimmed split trim_space
csv-nothing = refl

-- `csv` gives back the values that are joined by commas, if each is trimmed, not empty and has no comma.
pub csv-join : (vs : List String) → AreValues vs → csv (join "," vs) ≡ vs
unfolding csv
csv-join [] h = csv-nothing
csv-join (v ∷ vs) h =
    ap trimmed (split-join "," v vs (values-Lack (v ∷ vs) h)) ∙ trimmed-values (v ∷ vs) h

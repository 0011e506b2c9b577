-- ===== src/Service/Access/Words.antt =====
-- The texts of users, groups and grants in tuples, and the binding that a grant stands for.
use Prim.Native.String.{◌++◌ as append}
use text.Mathlib.TextLemmas.{append_cancel_right, append_assoc}
use fine_grained_permissions.Base.{
  String, true, false, ◌==◌, List, [], ◌∷◌, ◌≡◌, ◌≢◌, inl, inr, refl, sym, ap, ◌∙◌, In, ok,
  no_colon, colon_inj, traverse-In, sort_by, find_first-In, eq_iff, Option-cases,
}
use fine_grained_permissions.Api.{Binding, subject_user, subject_group}
use fine_grained_permissions.OpenFga.{subject_tuple}
use fine_grained_permissions.OpenFga.Model.{object}
use fine_grained_permissions.Store.{Db, BindingRow}
use fine_grained_permissions.Store.Bindings.{list_bindings, get_binding, find_binding, binding_of}
use fine_grained_permissions.Service.Access.Tuples.{differ}

-- A binding that is listed is the one found by its identifier.
pub listed_binding :
    (db : Db) (bindings : List Binding) (binding : Binding)
    → list_bindings db ≡ ok bindings
    → In binding bindings
    → get_binding binding.id db ≡ ok binding
unfolding list_bindings get_binding find_binding binding_of
listed_binding db bindings binding h i =
    let (row, _, found) =
      traverse-In (λ (row : BindingRow). get_binding row.id db) (sort_by _ db.bindings) bindings
        binding h i in
    elim (Option-cases (find_binding row.id db)) [
      | inl missing ↦ absurd (cc (rw (missing, get_binding) at found))
      | inr (other, e) ↦
          let (_, at) = find_first-In (λ (b : BindingRow). b.id == row.id) db.bindings e in
          let same : binding_of other ≡ binding = cc (rw (e, get_binding) at found) in
          let ids = sym (ap (λ b. b.id) same) ∙ (eq_iff other.id row.id).0 at in
          ap (λ n. get_binding n db) ids ∙ found
    ]

-- Two bindings that are listed with one identifier are the same.
pub listed_binding-same :
    (db : Db) (first second : List Binding) (a b : Binding)
    → list_bindings db ≡ ok first
    → list_bindings db ≡ ok second
    → In a first
    → In b second
    → a.id ≡ b.id
    → a ≡ b
listed_binding-same db first second a b ha hb ia ib e =
    let fa = listed_binding db first a ha ia in
    let fb = listed_binding db second b hb ib in
    let same : ok a ≡ ok b = sym fa ∙ ap (λ n. get_binding n db) e ∙ fb in cc same

-- Texts whose first words differ.
pub words_differ :
    (s t a b : String)
    → no_colon s ≡ true
    → no_colon t ≡ true
    → (s == t) ≡ false
    → append s (append ":" a) ≢ append t (append ":" b)
words_differ s t a b hs ht h e = differ s t h (colon_inj s t a b hs ht e).0

-- The words that the code writes with their colons.
pub user_word : (x : String) → append "user:" x ≡ append "user" (append ":" x)
user_word x = append_assoc "user" ":" x

pub group_word : (x : String) → append "group:" x ≡ append "group" (append ":" x)
group_word x = append_assoc "group" ":" x

pub grant_word : (x : String) → append "grant:" x ≡ append "grant" (append ":" x)
grant_word x = append_assoc "grant" ":" x

-- The userset of a group's members.
pub group_member_word :
    (x : String)
    → append (append "group" (append ":" x)) "#member"
      ≡ append "group" (append ":" (append x "#member"))
group_member_word x =
    append_assoc "group" (append ":" x) "#member"
    ∙ ap (λ w. append "group" w) (append_assoc ":" x "#member")

pub userset_word :
    (type relation id : String)
    → type ≡ "group"
    → relation ≡ "member"
    → append (append "group" (append ":" id)) "#member"
      ≡ append (object type id) (append "#" relation)
userset_word type relation id t r = rw (t, r) refl

pub only_groups :
    (type relation : String)
    → In {A = String × String} (type, relation) (("group", "member") ∷ [])
    → (type ≡ "group") × (relation ≡ "member")
only_groups type relation (inl same) = (ap (λ p. p.0) same, ap (λ p. p.1) same)
only_groups type relation (inr other) = absurd other

pub member_ids :
    (x y : String)
    → append (append "group" (append ":" x)) "#member"
      ≡ append (append "group" (append ":" y)) "#member"
    → x ≡ y
member_ids x y e = (colon_inj "group" "group" x y refl refl (append_cancel_right _ _ "#member" e)).1

-- The subject of a binding, of one kind or the other.
pub subject_user-tuple :
    (binding : Binding)
    → binding.subject_type ≡ subject_user
    → (subject_tuple binding).user ≡ append "user" (append ":" binding.subject_id)
unfolding subject_tuple
subject_user-tuple binding e = rw e refl

pub subject_group-tuple :
    (binding : Binding)
    → binding.subject_type ≡ subject_group
    → (subject_tuple binding).user
      ≡ append (append "group" (append ":" binding.subject_id)) "#member"
unfolding subject_tuple
subject_group-tuple binding e = rw e refl

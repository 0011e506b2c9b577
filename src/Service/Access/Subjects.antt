-- ===== src/Service/Access/Subjects.antt =====
-- Who belongs to a group and to the grant of a binding, by the tuples.
use Prim.Native.String.{◌++◌ as append}
use text.Mathlib.TextLemmas.{append_cancel_left}
use fine_grained_permissions.Base.{String, List, ◌≡◌, inl, inr, refl, sym, ap, ◌∙◌, subst, In, ok}
use fine_grained_permissions.Api.{Binding}
use fine_grained_permissions.OpenFga.{Tuple, membership_tuple, subject_tuple}
use fine_grained_permissions.OpenFga.Model.{
  definition, object, stored_tuple, Holds, named, belongs, inherited,
}
use fine_grained_permissions.OpenFga.Model.Tables.{definition-member, definition-subject}
use fine_grained_permissions.Store.{Db}
use fine_grained_permissions.Store.Bindings.{list_bindings}
use fine_grained_permissions.Service.Desired.Laws.{Wanted}
use fine_grained_permissions.Service.Access.{IsSound, IsFor}
use fine_grained_permissions.Service.Access.Tuples.{Wanted-member, Wanted-subject}
use fine_grained_permissions.Service.Access.Words.{
  words_differ, user_word, group_word, grant_word, group_member_word, userset_word, only_groups,
  member_ids, subject_user-tuple, subject_group-tuple,
}

module _ (db : Db) (sound : IsSound db) (S : Tuple → Type 0)
    (wanted : (t : Tuple) → S t → Wanted db t) (user_id : String) where
  pub Holds-member :
      (relation type id : String)
      → Holds S user_id relation type id
      → relation ≡ "member"
      → type ≡ "group"
      → In (id, user_id) db.group_members
  unfolding membership_tuple
  Holds-member relation type id (named _ _ _ d defined users s) r t =
      let (g, u, i, same) = Wanted-member db sound _ (wanted _ s) r in
      let users = append_cancel_left "user:" user_id u (ap (λ x. x.user) same) in
      let ids =
        append_cancel_left "group:" id g
          (group_word id ∙ ap (λ w. append w (append ":" id)) (sym t) ∙ ap (λ x. x.object) same) in
      subst (λ n. In (n, user_id) db.group_members) (sym ids)
        (subst (λ n. In (g, n) db.group_members) (sym users) i)
  Holds-member relation type id (belongs _ _ _ st sr si d defined k s h) r t =
      let (none_listed, _) = definition-member d (
        ap (λ x. definition "group" x) (sym r)
        ∙ ap (λ x. definition x relation) (sym t)
        ∙ defined) in
      absurd (subst (λ l. In (st, sr) l) none_listed k)
  Holds-member relation type id (inherited _ _ _ above pt pi d defined up s h) r t =
      let (_, none_above) = definition-member d (
        ap (λ x. definition "group" x) (sym r)
        ∙ ap (λ x. definition x relation) (sym t)
        ∙ defined) in
      absurd (cc (none_above, up))

  -- A tuple for the subject of a grant comes from the binding of the grant.
  subject_parts :
      (user type id : String)
      → S (stored_tuple user "subject" type id)
      → type ≡ "grant"
      → (bindings : List Binding) × (binding : Binding) × (list_bindings db ≡ ok bindings)
        × In binding bindings
        × (binding.id ≡ id)
        × (user ≡ (subject_tuple binding).user)
  unfolding subject_tuple
  subject_parts user type id s t =
      let (bs, b, e, k, same) = Wanted-subject db sound _ (wanted _ s) refl in
      (
        bs,
        b,
        e,
        k,
        sym (
            append_cancel_left "grant:" id b.id (
              grant_word id
              ∙ ap (λ w. append w (append ":" id)) (sym t)
              ∙ ap (λ x. x.object) same)),
        ap (λ x. x.user) same,
      )

  -- The binding of a grant.
  pub record GrantFor (id : String) : Type 0 where
    pub bindings : List Binding
    pub binding : Binding
    pub listed : list_bindings db ≡ ok bindings
    pub stands : In binding bindings
    pub own : binding.id ≡ id
    pub for_user : IsFor db binding user_id

  pub Holds-subject :
      (relation type id : String)
      → Holds S user_id relation type id
      → relation ≡ "subject"
      → type ≡ "grant"
      → GrantFor id
  Holds-subject relation type id (named _ _ _ d defined users s) r t =
      let (bs, b, e, k, own, user) =
        subject_parts _ type id
          (subst (λ n. S (stored_tuple (append "user:" user_id) n type id)) r s) t in
      elim (sound.subjects bs b e k) [
        | inl for_user ↦ record {
          bindings = bs;
          binding = b;
          listed = e;
          stands = k;
          own = own;
          for_user = inl (
            for_user,
            sym (
                append_cancel_left "user:" user_id b.subject_id
                  (user ∙ subject_user-tuple b for_user ∙ sym (user_word b.subject_id))),
          );
        }
        | inr for_group ↦ absurd (
            words_differ "user" "group" user_id (append b.subject_id "#member") refl refl refl (
              sym (user_word user_id)
              ∙ user
              ∙ subject_group-tuple b for_group
              ∙ group_member_word b.subject_id))
      ]
  Holds-subject relation type id (belongs _ _ _ st sr si d defined k s h) r t =
      let (groups, _) = definition-subject d (
        ap (λ x. definition "grant" x) (sym r)
        ∙ ap (λ x. definition x relation) (sym t)
        ∙ defined) in
      let (bs, b, e, kb, own, user) =
        subject_parts _ type id
          (subst (λ n. S (stored_tuple (append (object st si) (append "#" sr)) n type id)) r s) t in
      let (is_group, is_member) = only_groups st sr (subst (λ l. In (st, sr) l) groups k) in
      let inside = Holds-member sr st si h is_member is_group in
      let user' = userset_word st sr si is_group is_member ∙ user in
      elim (sound.subjects bs b e kb) [
        | inl for_user ↦ absurd (
            words_differ "group" "user" (append si "#member") b.subject_id refl refl refl
              (sym (group_member_word si) ∙ user' ∙ subject_user-tuple b for_user))
        | inr for_group ↦ record {
          bindings = bs;
          binding = b;
          listed = e;
          stands = kb;
          own = own;
          for_user = inr (
            for_group,
            subst (λ g. In (g, user_id) db.group_members)
                (member_ids si b.subject_id (user' ∙ subject_group-tuple b for_group)) inside,
          );
        }
      ]
  Holds-subject relation type id (inherited _ _ _ above pt pi d defined up s h) r t =
      let (_, none_above) = definition-subject d (
        ap (λ x. definition "grant" x) (sym r)
        ∙ ap (λ x. definition x relation) (sym t)
        ∙ defined) in
      absurd (cc (none_above, up))

-- ===== src/Service/Access/Says.antt =====
-- The relation of the model that says a permission of a resource.
use Prim.Native.String.{◌++◌ as append}
use text.Mathlib.TextLemmas.{append_cancel_left, append_cancel_right, append_assoc}
use fine_grained_permissions.Base.{
  String, true, Option, none, some, ◌≡◌, ◌≢◌, refl, sym, ap, ◌∙◌, In, ok, no_colon,
}
use fine_grained_permissions.Api.{Resource, ResourceRef, scope_match, controller}
use fine_grained_permissions.Catalog.{open_fga_type, resource_object, parent_rule}
use fine_grained_permissions.Catalog.Types.{all_types, all_names}
use fine_grained_permissions.OpenFga.{Tuple, relation_at_scope}
use fine_grained_permissions.OpenFga.Model.{
  Define, definition, object, Holds, named, belongs, inherited,
}
use fine_grained_permissions.OpenFga.Model.Tables.{
  Line, relation_at_scope-Line, definition-no_colon,
}
use fine_grained_permissions.Store.{Db}
use fine_grained_permissions.Store.Resources.{get_resource}
use fine_grained_permissions.Service.Scopes.Laws.{up}
use fine_grained_permissions.Service.Access.{Authorized}
use fine_grained_permissions.Service.Access.Words.{grant_word}

-- The relation of the model that says the permission of the resource.
pub record Says (p : String) (ref : ResourceRef) (relation type id : String) : Type 0 where
  pub known : In p all_names
  pub typed : In ref.type all_types
  pub of_type : open_fga_type ref.type ≡ type
  pub of_id : ref.id ≡ id
  pub compiled : relation_at_scope p ref.type scope_match ≡ ok relation

pub Says-Line :
    {p : String} {ref : ResourceRef} {relation type id : String}
    → Says p ref relation type id
    → Line p ref.type relation
Says-Line {p} {ref} {relation} says =
    relation_at_scope-Line p ref.type relation says.known says.typed says.compiled

pub Says-object :
    {p : String} {ref : ResourceRef} {relation type id : String}
    → Says p ref relation type id
    → resource_object ref ≡ object type id
unfolding resource_object
Says-object says = rw (says.of_type, says.of_id) refl

-- The line that the model finds is that of the permission.
pub Says-defined :
    {p : String} {ref : ResourceRef} {relation type id : String}
    (says : Says p ref relation type id) (d : Define)
    → definition type relation ≡ some d
    → d ≡ (Says-Line says).line
Says-defined {relation = relation} says d defined =
    let same : some d ≡ some (Says-Line says).line =
      sym defined ∙ ap (λ t. definition t relation) (sym says.of_type) ∙ (Says-Line says).defined in
    cc same

-- What is authorized on the parent is authorized below it.
pub Authorized-up :
    (db : Db) (user_id p : String) (ref above : ResourceRef) (item : Resource)
    → ref.type ≢ controller
    → get_resource ref.type ref.id db ≡ ok item
    → item.parent ≡ some above
    → Authorized db user_id p above
    → Authorized db user_id p ref
Authorized-up db user_id p ref above item below found e a =
    let (target, chosen, typed, under) = a.reaches in
    record {
      bindings = a.bindings;
      binding = a.binding;
      role = a.role;
      listed = a.listed;
      stands = a.stands;
      for_user = a.for_user;
      has_role = a.has_role;
      permitted = a.permitted;
      reaches = (target, chosen, typed, up ref above item below found e under);
    }

pub parent_rule-ne : (t u : String) → In u (parent_rule t) → t ≢ controller
unfolding parent_rule
parent_rule-ne t u i e = rw e at i

-- The subjects of a grant, as a tuple of a permission names them.
pub grant_ids :
    (x y : String)
    → append (append "grant" (append ":" x)) "#subject" ≡ append "grant:" (append y "#subject")
    → x ≡ y
grant_ids x y e = append_cancel_right x y "#subject" (
    append_cancel_left "grant:" (append x "#subject") (append y "#subject")
      (sym (append_assoc "grant:" x "#subject") ∙ ap (λ w. append w "#subject") (grant_word x) ∙ e))

pub grant_set :
    (type relation id : String)
    → type ≡ "grant"
    → relation ≡ "subject"
    → append (append "grant" (append ":" id)) "#subject"
      ≡ append (object type id) (append "#" relation)
grant_set type relation id t r = rw (t, r) refl

-- An object of which something holds is of a type of the model.
pub Holds-no_colon :
    (S : Tuple → Type 0) (user_id relation type id : String)
    → Holds S user_id relation type id
    → no_colon type ≡ true
Holds-no_colon S user_id relation type id (named _ _ _ d defined _ _) =
    definition-no_colon type relation d defined
Holds-no_colon S user_id relation type id (belongs _ _ _ _ _ _ d defined _ _ _) =
    definition-no_colon type relation d defined
Holds-no_colon S user_id relation type id (inherited _ _ _ _ _ _ d defined _ _ _) =
    definition-no_colon type relation d defined

abbrev pub from_some : Option String → String → String
from_some none s = s
from_some (some t) s = t

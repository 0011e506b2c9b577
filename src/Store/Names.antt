-- ===== src/Store/Names.antt =====
-- The helpers of store.go on names: `strings.TrimSpace`, `slug`, `unique`. `unicode.ToLower` is the
-- parameter `lower`: its table is the standard library's.
use Prim.Native.Char.{Char, code}
use Prim.Native.String.{◌++◌ as append}
use fine_grained_permissions.Base.{
  ℕ, String, Bool, true, false, not, ◌&&◌, ◌||◌, List, [], ◌∷◌, ◌++◌, leb, nat_eq, contains,
  sort_strings, if◌then◌else◌,
}

-- `unicode.IsSpace`.
abbrev pub is_space : Char → Bool
is_space c =
    let n = code c in
    leb 9 n && leb n 13
    || nat_eq n 32
    || nat_eq n 0x85
    || nat_eq n 0xA0
    || nat_eq n 0x1680
    || leb 0x2000 n && leb n 0x200A
    || nat_eq n 0x2028
    || nat_eq n 0x2029
    || nat_eq n 0x202F
    || nat_eq n 0x205F
    || nat_eq n 0x3000

unfoldable pub trim_left : (Char → Bool) → String → String
trim_left drop String.[] = ""
trim_left drop (String.◌∷◌ c s) =
    let rest = trim_left drop s in if drop c then rest else String.◌∷◌ c s

abbrev is_empty : String → Bool
is_empty String.[] = true
is_empty (String.◌∷◌ _ _) = false

unfoldable pub trim_right : (Char → Bool) → String → String
trim_right drop String.[] = ""
trim_right drop (String.◌∷◌ c s) =
    let rest = trim_right drop s in if drop c && is_empty rest then "" else String.◌∷◌ c rest

-- `strings.TrimSpace`.
unfoldable pub trim_space : String → String
unfolding trim_left trim_right
trim_space s = trim_right is_space (trim_left is_space s)

abbrev pub is_dash : Char → Bool
is_dash c = nat_eq (code c) b'-'

-- 'a' to 'z' and '0' to '9'.
abbrev pub is_slug_char : Char → Bool
is_slug_char c = let n = code c in leb b'a' n && leb n b'z' || leb b'0' n && leb n b'9'

abbrev pub push : String → Char → String
push s c = append s (String.◌∷◌ c "")

unfoldable pub map_text : (Char → Char) → String → String
map_text f String.[] = ""
map_text f (String.◌∷◌ c s) = String.◌∷◌ (f c) (map_text f s)

-- The loop of `slug`: the builder's text, and `dash`.
unfoldable pub slug_from : String → Bool → String → String
slug_from b dash String.[] = b
slug_from b dash (String.◌∷◌ r s) =
    let kept = slug_from (push b r) false s in
    let dashed = slug_from (append b "-") true s in
    let skipped = slug_from b dash s in
    if is_slug_char r then kept else if not dash && not (is_empty b) then dashed else skipped

-- `slug`.
unfoldable pub slug : (Char → Char) → String → String
unfolding trim_space map_text slug_from trim_right
slug lower value = trim_right is_dash (slug_from "" false (map_text lower (trim_space value)))

-- The loop of `unique`: the values seen, then those kept so far.
unfoldable pub unique_from : List String → List String → List String → List String
unique_from seen result [] = result
unique_from seen result (v ∷ values) =
    let fresh = unique_from (v ∷ seen) (result ++ v ∷ []) values in
    let again = unique_from seen result values in if contains seen v then again else fresh

-- `unique`.
unfoldable pub unique : List String → List String
unfolding unique_from
unique values = sort_strings (unique_from [] [] values)

-- `boolInt`.
abbrev pub bool_int : Bool → ℕ
bool_int true = 1
bool_int false = 0

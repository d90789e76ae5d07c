-- ===== src/Access/Value.antt =====
-- A value of unknown type at run time, and the tests of rbac.guard.ts on it.
use cherry_wiki.Base.{
  ℕ, String, Bool, true, false, Option, none, some, List, [], ◌∷◌, ◌=ₛ◌, if◌then◌else◌,
}
use cherry_wiki.Base.Text.{is_blank}

mutual
  pub data Value : Type 0 where
    undefined : Value
    null : Value
    bool : Bool → Value
    num : ℕ → Value
    str : String → Value
    arr : Items → Value
    obj : Members → Value

  pub data Items : Type 0 where
    nil : Items
    item : Value → Items → Items

  pub data Members : Type 0 where
    end : Members
    member : String → Value → Members → Members

unfoldable pub member_of : String → Members → Value
member_of name end = undefined
member_of name (member key v rest) = if key =ₛ name then v else member_of name rest

-- `value.name`; the numbered elements of an array are not read as properties.
abbrev pub property : String → Value → Value
property name (obj members) = member_of name members
property name _ = undefined

-- isRecord: an object that is not null; an array is one.
abbrev pub is_record : Value → Bool
is_record (obj members) = true
is_record (arr items) = true
is_record _ = false

-- isNonEmptyString, with the text.
abbrev pub unless_blank : String → Option String
unless_blank s = if is_blank s then none else some s

abbrev pub non_empty_string : Value → Option String
non_empty_string (str s) = unless_blank s
non_empty_string _ = none

abbrev push_text : Value → Option (List String) → Option (List String)
push_text (str s) (some rest) = some (s ∷ rest)
push_text _ _ = none

unfoldable pub texts : Items → Option (List String)
texts nil = some []
texts (item v rest) = push_text v (texts rest)

-- isStringArray, with the texts.
abbrev pub string_array : Value → Option (List String)
string_array (arr items) = texts items
string_array _ = none

abbrev push_entry :
    String
    → Option (List String)
    → Option (List (String × List String))
    → Option (List (String × List String))
push_entry key (some values) (some rest) = some ((key, values) ∷ rest)
push_entry key _ _ = none

unfoldable pub entries : Members → Option (List (String × List String))
entries end = some []
entries (member key v rest) = push_entry key (string_array v) (entries rest)

abbrev all_arrays :
    Option (List String)
    → Option (List (String × List String))
    → Option (List (String × List String))
all_arrays (some values) (some rest) = some rest
all_arrays _ _ = none

unfoldable pub unnamed : Items → Option (List (String × List String))
unnamed nil = some []
unnamed (item v rest) = all_arrays (string_array v) (unnamed rest)

-- isPermissionMap, with its named entries.
abbrev pub permission_map : Value → Option (List (String × List String))
permission_map (obj members) = entries members
permission_map (arr items) = unnamed items
permission_map _ = none

abbrev pub is_undefined : Value → Bool
is_undefined undefined = true
is_undefined _ = false

-- ===== src/Orchestrator/Json.antt =====
-- The JSON values that nodes take and return, and runtime/orchestrator/src/hash.ts over them.
-- Numbers are natural numbers; `sha256` is node:crypto's, and a parameter.
use Prim.Native.Char.{code}
use Prim.Native.String.{compare}
use text.Mathlib.Text.{is_le}
use chat_ai.Base.{
  ℕ, String, Bool, true, false, List, [], ◌∷◌, Option, none, some, ◌==◌, ◌-◌, ◌+◌, ltb, str_eq,
  show, ◌<>◌, if◌then◌else◌,
}

mutual
  pub data Json : Type 0 where
    null : Json
    bool : Bool → Json
    num : ℕ → Json
    str : String → Json
    arr : Items → Json
    obj : Fields → Json

  pub data Items : Type 0 where
    nil : Items
    cons : Json → Items → Items

  pub data Fields : Type 0 where
    end : Fields
    field : String → Json → Fields → Fields

-- One character of `JSON.stringify` of a text.
hex_digit : ℕ → String
hex_digit n =
    if ltb n 10
    then show n
    else if n == 10
    then "a"
    else if n == 11
    then "b"
    else if n == 12
    then "c"
    else if n == 13
    then "d"
    else if n == 14
    then "e"
    else "f"

quote_char : ℕ → String → String
unfolding hex_digit
quote_char c s =
    if c == 34
    then "\\\""
    else if c == 92
    then "\\\\"
    else if c == 8
    then "\\b"
    else if c == 9
    then "\\t"
    else if c == 10
    then "\\n"
    else if c == 12
    then "\\f"
    else if c == 13
    then "\\r"
    else if ltb c 16
    then "\\u000" <> hex_digit c
    else if ltb c 32
    then "\\u001" <> hex_digit (c - 16)
    else s

quote_chars : String → String
unfolding quote_char
quote_chars String.[] = ""
quote_chars (String.◌∷◌ c s) = quote_char (code c) (String.◌∷◌ c String.[]) <> quote_chars s

-- `JSON.stringify` of a text.
unfoldable pub quote : String → String
unfolding quote_chars
quote s = "\"" <> quote_chars s <> "\""

-- A field put before the first whose key is not smaller: `sort` of the keys, with their values.
insert_field : String → String → List (String × String) → List (String × String)
insert_field k v [] = (k, v) ∷ []
insert_field k v ((j, w) ∷ fs) =
    let rest = insert_field k v fs in
    if is_le (compare k j) then (k, v) ∷ (j, w) ∷ fs else (j, w) ∷ rest

-- `join(',')` of the fields `key:value`.
join_fields : List (String × String) → String
join_fields [] = ""
join_fields ((k, v) ∷ []) = quote k <> ":" <> v
join_fields ((k, v) ∷ f ∷ fs) = quote k <> ":" <> v <> "," <> join_fields (f ∷ fs)

join_items : List String → String
join_items [] = ""
join_items (s ∷ []) = s
join_items (s ∷ t ∷ ss) = s <> "," <> join_items (t ∷ ss)

unfoldable mutual
  unfolding insert_field join_fields join_items quote

  pub stable_stringify : Json → String
  stable_stringify null = "null"
  stable_stringify (bool true) = "true"
  stable_stringify (bool false) = "false"
  stable_stringify (num n) = show n
  stable_stringify (str s) = quote s
  stable_stringify (arr xs) = "[" <> join_items (stringify_items xs) <> "]"
  stable_stringify (obj fs) = "{" <> join_fields (stringify_fields fs) <> "}"

  pub stringify_items : Items → List String
  stringify_items nil = []
  stringify_items (cons x xs) = stable_stringify x ∷ stringify_items xs

  -- The fields in the order of their keys.
  pub stringify_fields : Fields → List (String × String)
  stringify_fields end = []
  stringify_fields (field k v fs) = insert_field k (stable_stringify v) (stringify_fields fs)

-- `split('.')` of a path: `acc` is the part read so far.
split_from : String → String → List String
split_from acc String.[] = acc ∷ []
split_from acc (String.◌∷◌ c s) =
    let rest = split_from "" s in
    let more = split_from (acc <> String.◌∷◌ c String.[]) s in
    if code c == 46 then acc ∷ rest else more

unfoldable pub split_path : String → List String
unfolding split_from
split_path s = split_from "" s

unfoldable pub get_field : String → Fields → Option Json
get_field k end = none
get_field k (field j v fs) = let rest = get_field k fs in if str_eq j k then some v else rest

-- An array's own properties: its indices, which start at `i`, and its length.
item_at : String → ℕ → Items → Option Json
item_at k i nil = if str_eq k "length" then some (num i) else none
item_at k i (cons x xs) =
    let rest = item_at k (i + 1) xs in if str_eq k (show i) then some x else rest

-- `cur[part]`; `none` is `undefined`, also where `cur` is no object.
get_part : String → Json → Option Json
unfolding get_field item_at
get_part k (arr xs) = item_at k 0 xs
get_part k (obj fs) = get_field k fs
get_part k _ = none

walk : Option Json → List String → Option Json
walk cur [] = cur
walk none (part ∷ parts) = none
walk (some cur) (part ∷ parts) = walk (get_part part cur) parts

-- `getPath`.
unfoldable pub get_path : Json → String → Option Json
unfolding walk split_path get_part
get_path v path = walk (some v) (split_path path)

-- The texts `nodeId` and `path` of a reference.
ref_of : Option Json → Option Json → Option (String × String)
ref_of (some (str n)) (some (str p)) = some (n, p)
ref_of (some (str n)) _ = none
ref_of _ _ = none

ref_fields : Option Json → Option (String × String)
unfolding ref_of get_part
ref_fields none = none
ref_fields (some r) = ref_of (get_part "nodeId" r) (get_part "path" r)

-- `isInputRef`, with the reference that it finds.
unfoldable pub input_ref : Json → Option (String × String)
unfolding ref_fields
input_ref v = ref_fields (get_part "$ref" v)

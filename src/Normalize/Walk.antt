-- ===== src/Normalize/Walk.antt =====
-- `normalize` of core/src/normalize.ts on values that may share objects and form cycles.
use watchup_v3_packages.Prelude.{
  ℕ, zero, suc, ◌+◌, ◌-◌, ◌++◌, ◌==◌, ◌||◌, Bool, true, false, List, [], ◌∷◌, leb, if◌then◌else◌,
  Option, none, some, any, length, same, map,
}
use watchup_v3_packages.Utf8.{Str, units, decimal}
use watchup_v3_packages.Json.{
  Json, null, bool, number, string, array, object, Items, nil, cons, Fields, end, field,
}
use watchup_v3_packages.Json.Access.{get_field, set_field}
use watchup_v3_packages.Normalize.Scrub.{redacted}
use watchup_v3_packages.Normalize.Scrub.Cards.{scrub_string}
use watchup_v3_packages.Normalize.Keys.{canonical_key, is_sensitive_key}

abbrev pub max_depth : ℕ
max_depth = 10

abbrev pub max_keys : ℕ
max_keys = 200

abbrev pub max_array : ℕ
max_array = 200

-- What `typeof` tells apart. `omitted` is `undefined`, a function or a symbol; a number has its text
-- if it is finite; an object is known by the place where it lives.
pub data Value : Type 0 where
  omitted : Value
  null_value : Value
  truth : Bool → Value
  numeral : Option Str → Value
  bigint : Str → Value
  text : Str → Value
  ref : ℕ → Value

-- An own property by name; reading it may throw.
abbrev pub Entry : Type 0
Entry = Str × Option Value

pub record ErrorCell : Type 0 where
  pub name : Str
  pub message : Str
  pub stack : Option Str
  pub own : List Entry

-- An object as the tests of `walk` tell it, in their order: a date with its ISO text, if it is a
-- time; binary data of a size; an error; an object with `toJSON`, and what that returns unless it
-- throws; an array or a set; any other, with a map's entries or its own properties.
pub data Cell : Type 0 where
  date : Option Str → Cell
  binary : ℕ → Cell
  error : ErrorCell → Cell
  with_to_json : Option Value → Cell
  list : List Value → Cell
  plain : List Entry → Cell

-- `none` if it throws; `some none` is `undefined`.
abbrev pub Out : Type 0
Out = Option (Option Json)

abbrev pub json : Json → Out
json j = some (some j)

abbrev pub unserializable : Json
unserializable = string (units "[Unserializable]")

-- Setting this name on an object literal makes no property.
abbrev pub proto_key : Str
proto_key = units "__proto__"

-- `out[key] = value` on an object literal.
unfoldable pub assign : Str → Json → Fields → Fields
assign key value out = if same key proto_key then out else set_field key value out

-- What every object literal inherits.
abbrev pub inherited_keys : List Str
inherited_keys =
    units "constructor"
    ∷ units "hasOwnProperty"
    ∷ units "isPrototypeOf"
    ∷ units "propertyIsEnumerable"
    ∷ units "toLocaleString"
    ∷ units "toString"
    ∷ units "valueOf"
    ∷ units "__defineGetter__"
    ∷ units "__defineSetter__"
    ∷ units "__lookupGetter__"
    ∷ units "__lookupSetter__"
    ∷ proto_key
    ∷ []

abbrev is_present : Option Json → Bool
is_present none = false
is_present (some x) = true

-- `key in out`
unfoldable pub is_in : Str → Fields → Bool
is_in key out = is_present (get_field key out) || any (same key) inherited_keys

abbrev pub name_key : Str
name_key = units "name"

abbrev pub error_message_key : Str
error_message_key = units "message"

abbrev pub error_stack_key : Str
error_stack_key = units "stack"

abbrev pub dropped_key : Str
dropped_key = units "_watchup_dropped_keys"

-- `if (obj.stack)`
abbrev pub with_stack : Option Str → Fields
with_stack none = end
with_stack (some []) = end
with_stack (some (c ∷ s)) = field error_stack_key (string (scrub_string (c ∷ s))) end

abbrev pub error_head : ErrorCell → Fields
error_head e =
    field name_key (string e.name)
      (field error_message_key (string (scrub_string e.message)) (with_stack e.stack))

-- Reading all properties at once throws if one of them does.
unfoldable pub read_all : List Entry → Option (List (Str × Value))
read_all [] = some []
read_all (e ∷ es) = elim e.1 [
  | none ↦ none
  | some v ↦ elim (read_all es) [ none ↦ none | some vs ↦ some ((e.0, v) ∷ vs) ]
]

abbrev pub or_null : Option Json → Json
or_null none = null
or_null (some j) = j

abbrev pub or_same_out : Str → Option Json → Fields → Fields
or_same_out key none out = out
or_same_out key (some j) out = assign key j out

module _ (to_lower : Str → Str) (extra : List Str) where
  -- The loop over an error's own properties, with the walk of a value one level down.
  unfoldable pub error_loop : (Value → Out) → Fields → List Entry → Option Fields
  error_loop w out [] = some out
  error_loop w out (e ∷ es) =
      if is_in e.0 out
      then error_loop w out es
      else if is_sensitive_key to_lower extra e.0
      then error_loop w (assign e.0 (string redacted) out) es
      else elim e.1 [
        | none ↦ none
        | some raw ↦ elim (w raw) [ none ↦ none | some v ↦ error_loop w (or_same_out e.0 v out) es ]
      ]

  -- The loop over the first items of a list.
  unfoldable pub list_loop : (Value → Out) → ℕ → List Value → Option Items
  list_loop w left [] = some nil
  list_loop w zero (v ∷ vs) =
      some (cons (string (units "[… " ++ decimal (length (v ∷ vs)) ++ units " more]")) nil)
  list_loop w (suc left) (v ∷ vs) = elim (w v) [
    | none ↦ none
    | some j ↦ elim (list_loop w left vs) [ none ↦ none | some rest ↦ some (cons (or_null j) rest) ]
  ]

  -- The loop over an object's entries; `total` is their number.
  unfoldable pub entry_loop : (Value → Out) → ℕ → ℕ → Fields → List (Str × Value) → Option Fields
  entry_loop w total kept out [] = some out
  entry_loop w total kept out (e ∷ es) =
      if leb max_keys kept
      then some (assign dropped_key (number (decimal (total - kept))) out)
      else if is_sensitive_key to_lower extra e.0
      then entry_loop w total (kept + 1) (assign e.0 (string redacted) out) es
      else elim (w e.1) [
        | none ↦ none
        | some v ↦ elim v [
          | none ↦ entry_loop w total kept out es
          | some j ↦ entry_loop w total (kept + 1) (assign e.0 j out) es
        ]
      ]

  abbrev pub object_of : Option Fields → Out
  object_of none = none
  object_of (some fs) = json (object fs)

  abbrev pub array_of : Option Items → Out
  array_of none = none
  array_of (some xs) = json (array xs)

  unfoldable pub walk_entries : (Value → Out) → Option (List (Str × Value)) → Out
  walk_entries w none = none
  walk_entries w (some es) = object_of (entry_loop w (length es) 0 end es)

  -- `walk(toJSON.call(obj), depth + 1)`, with its `catch`.
  abbrev pub caught : Out → Out
  caught none = json unserializable
  caught (some v) = some v

  unfoldable pub walk_to_json : (Value → Out) → Option Value → Out
  walk_to_json w none = json unserializable
  walk_to_json w (some v) = caught (w v)

  -- An object, with the walk of a value one level down.
  unfoldable pub walk_cell : (Value → Out) → Cell → Out
  walk_cell w (date none) = json null
  walk_cell w (date (some iso)) = json (string iso)
  walk_cell w (binary n) = json (string (units "[Binary " ++ decimal n ++ units " bytes]"))
  walk_cell w (error e) = object_of (error_loop w (error_head e) e.own)
  walk_cell w (with_to_json v) = walk_to_json w v
  walk_cell w (list vs) = array_of (list_loop w max_array vs)
  walk_cell w (plain es) = walk_entries w (read_all es)

  module _ (heap : ℕ → Cell) where
    -- `left` is `LIMITS.MAX_DEPTH - depth`, so that the walk ends whatever the heap holds.
    unfoldable pub walk : ℕ → List ℕ → Value → Out
    walk left ancestors omitted = some none
    walk left ancestors null_value = json null
    walk left ancestors (truth b) = json (bool b)
    walk left ancestors (numeral none) = json null
    walk left ancestors (numeral (some t)) = json (number t)
    walk left ancestors (bigint t) = json (string t)
    walk left ancestors (text s) = json (string (scrub_string s))
    walk zero ancestors (ref p) =
        if any (λ q. q == p) ancestors
        then json (string (units "[Circular]"))
        else json (string (units "[MaxDepth]"))
    walk (suc left) ancestors (ref p) =
        let inside = walk_cell (walk left (p ∷ ancestors)) (heap p) in
        if any (λ q. q == p) ancestors then json (string (units "[Circular]")) else inside

-- The set of canonical keys is made of the caller's keys.
unfoldable pub normalize : (Str → Str) → List Str → (ℕ → Cell) → Value → Option Json
normalize to_lower redact_keys heap value =
    elim (walk to_lower (map (canonical_key to_lower) redact_keys) heap max_depth [] value) [
      | none ↦ some unserializable
      | some v ↦ v
    ]

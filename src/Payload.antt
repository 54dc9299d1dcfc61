-- ===== src/Payload.antt =====
-- Object literals with spreads, as the clients of node/src, browser/src and react-native/src build
-- their payloads, and what the three clients have in common.
pub mod Spread
pub mod Shared
use watchup_v3_packages.Prelude.{
  ℕ, ◌==◌, Bool, true, false, List, [], ◌∷◌, Option, none, some, ltb, if◌then◌else◌,
}
use watchup_v3_packages.Utf8.{Str, units}
use watchup_v3_packages.Json.{Json, string, number, object, Fields, end, field}
use watchup_v3_packages.Json.Access.{get_field, set_field}

-- `{ ...a, ...b }`
unfoldable pub spread : Fields → Fields → Fields
spread a end = a
spread a (field k x b) = spread (set_field k x a) b

-- An object literal whose parts have no key in common.
unfoldable pub join_fields : Fields → Fields → Fields
join_fields end b = b
join_fields (field k x a) b = field k x (join_fields a b)

-- `{ key: value }`
abbrev pub single : Str → Json → Fields
single key value = field key value end

-- `...(value && { key: value })` of a string that may be `undefined`
abbrev pub if_text : Str → Option Str → Fields
if_text key none = end
if_text key (some []) = end
if_text key (some (c ∷ s)) = single key (string (c ∷ s))

-- `...(value && { key: value })` of an object that may be `null`
abbrev pub if_object : Str → Option Fields → Fields
if_object key none = end
if_object key (some fs) = single key (object fs)

-- `...(value !== undefined && { key: value })`
abbrev pub if_defined : Str → Option Json → Fields
if_defined key none = end
if_defined key (some x) = single key x

abbrev pub if_true : Bool → Fields → Fields
if_true true fs = fs
if_true false fs = end

-- `a ?? b`
abbrev pub or_other {ℓ} : {A : Type ℓ} → Option A → Option A → Option A
or_other (some a) b = some a
or_other none b = b

abbrev pub or_value {ℓ} : {A : Type ℓ} → Option A → A → A
or_value (some a) b = a
or_value none b = b

-- `s || t` of strings
abbrev pub or_text : Str → Str → Str
or_text [] t = t
or_text (c ∷ s) t = c ∷ s

abbrev pub is_empty_text : Str → Bool
is_empty_text [] = true
is_empty_text (c ∷ s) = false

pub data Status : Type 0 where
  ok warn err : Status

abbrev pub status_text : Status → Str
status_text ok = units "ok"
status_text warn = units "warn"
status_text err = units "err"

pub data LogLevel : Type 0 where
  debug info warning error critical : LogLevel

abbrev pub level_text : LogLevel → Str
level_text debug = units "debug"
level_text info = units "info"
level_text warning = units "warning"
level_text error = units "error"
level_text critical = units "critical"

-- An error as the clients read it: `err` is the value itself, or a new error made from it.
pub record Thrown : Type 0 where
  pub identity : Option ℕ
  pub message : Str
  pub name : Str
  pub stack : Option Str
  pub cause : Option Json
  pub as_text : Str

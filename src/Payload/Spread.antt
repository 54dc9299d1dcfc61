-- ===== src/Payload/Spread.antt =====
-- Which value a key has after a spread.
use watchup_v3_packages.Prelude.{
  ◌≡◌, refl, ap, ◌∙◌, Bool, true, false, inl, inr, Option, none, some, same, if◌then◌else◌,
  Option-cases,
}
use watchup_v3_packages.Utf8.{Str}
use watchup_v3_packages.Json.{Json, Fields, end, field}
use watchup_v3_packages.Json.Access.{get_field, set_field, get_field-set_field}
use watchup_v3_packages.Payload.{spread, join_fields}

-- The last value of a key in a list of fields.
unfoldable pub last_field : Str → Fields → Option Json
last_field key end = none
last_field key (field k x fs) = elim (last_field key fs) [
  | some later ↦ some later
  | none ↦ if same k key then some x else none
]

-- `b` where it is defined, else `a`.
abbrev pub override : Option Json → Option Json → Option Json
override (some x) a = some x
override none a = a

if_override :
    (b : Bool) (x : Json) (o : Option Json)
    → (if b then some x else o) ≡ override (if b then some x else none) o
if_override true x o = refl
if_override false x o = refl

-- In `{ ...a, ...b }` a key has its value of `b`, or else its value of `a`.
pub get_field-spread :
    (key : Str) (a b : Fields)
    → get_field key (spread a b) ≡ override (last_field key b) (get_field key a)
unfolding spread last_field
get_field-spread key a end = refl
get_field-spread key a (field k x b) =
    let step =
      get_field-spread key (set_field k x a) b
      ∙ ap (override (last_field key b)) (get_field-set_field key k x a) in
    elim (Option-cases (last_field key b)) [
      | inr (later, e) ↦ step ∙ rw (e, last_field) refl
      | inl e ↦ step ∙ rw (e, last_field) (if_override (same k key) x (get_field key a))
    ]

pub override-none : (o : Option Json) → o ≡ override o none
override-none none = refl
override-none (some x) = refl

pub last_field-join_fields :
    (key : Str) (a b : Fields)
    → last_field key (join_fields a b) ≡ override (last_field key b) (last_field key a)
unfolding last_field join_fields
last_field-join_fields key end b = override-none (last_field key b)
last_field-join_fields key (field k x a) b = elim (Option-cases (last_field key b)) [
  | inr (later, e) ↦ rw (last_field-join_fields key a b, e, last_field) refl
  | inl e ↦ rw (last_field-join_fields key a b, e, last_field) refl
]

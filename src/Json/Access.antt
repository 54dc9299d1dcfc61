-- ===== src/Json/Access.antt =====
-- An object's fields read, written and deleted by key, as JavaScript does it.
use watchup_v3_packages.Prelude.{
  ◌≡◌, refl, Option, none, some, same, if◌then◌else◌, arith, same_iff,
}
use watchup_v3_packages.Utf8.{Str}
use watchup_v3_packages.Json.{Json, Fields, end, field}

-- `item[key]`
unfoldable pub get_field : Str → Fields → Option Json
get_field key end = none
get_field key (field k x fs) = if same k key then some x else get_field key fs

-- `item[key] = value`: in place, or behind the other fields.
unfoldable pub set_field : Str → Json → Fields → Fields
set_field key value end = field key value end
set_field key value (field k x fs) =
    if same k key then field k value fs else field k x (set_field key value fs)

-- `delete item[key]`
unfoldable pub delete_field : Str → Fields → Fields
delete_field key end = end
delete_field key (field k x fs) = if same k key then fs else field k x (delete_field key fs)

pub get_field-set_field :
    (j key : Str) (value : Json) (fs : Fields)
    → get_field j (set_field key value fs) ≡ (if same key j then some value else get_field j fs)
unfolding get_field set_field
get_field-set_field j key value end = refl
get_field-set_field j key value (field k x fs) =
    ground (arith, same_iff k key, same_iff k j, same_iff key j, get_field-set_field j key value fs)

-- A key that is written last and was not there is undone by `delete`.
pub delete_field-set_field :
    (key : Str) (value : Json) (fs : Fields)
    → get_field key fs ≡ none
    → delete_field key (set_field key value fs) ≡ fs
unfolding get_field set_field delete_field
delete_field-set_field key value end h = ground (arith, same_iff key key)
delete_field-set_field key value (field k x fs) h =
    ground (arith, delete_field-set_field key value fs)

-- ===== src/Truncate.antt =====
-- core/src/truncate.ts: an item that would not fit in an empty chunk is cut in three steps.
mod Edits
pub mod Laws
mod Tests
use watchup_v3_packages.Prelude.{
  ℕ, Bool, true, false, ◌||◌, ◌∷◌, [], leb, ltb, not, if◌then◌else◌, Option, none, some, List,
}
use watchup_v3_packages.Utf8.{Str, units, utf8_byte_length, decimal, truncate_with_marker}
use watchup_v3_packages.Json.{
  Json, null, bool, number, string, array, object, Items, nil, cons, Fields, end, field, stringify,
}
use watchup_v3_packages.Json.Access.{get_field, set_field, delete_field}

abbrev pub truncate_message_bytes : ℕ
truncate_message_bytes = 8192

abbrev pub truncate_stack_bytes : ℕ
truncate_stack_bytes = 32_768

abbrev pub truncate_field_bytes : ℕ
truncate_field_bytes = 8192

abbrev pub truncate_message_final_bytes : ℕ
truncate_message_final_bytes = 1024

abbrev pub truncate_stack_final_bytes : ℕ
truncate_stack_final_bytes = 4096

abbrev pub message_key : Str
message_key = units "message"

abbrev pub stack_key : Str
stack_key = units "stack"

abbrev pub truncated_key : Str
truncated_key = units "_watchup_truncated"

abbrev pub containers : List Str
containers = units "context" ∷ units "meta" ∷ units "properties" ∷ []

-- The two results of `capStrings` at each type of JSON data.
pub record Capped (A : Type 0) : Type 0 where
  pub value : A
  pub changed : Bool

unfoldable mutual
  pub cap_strings : ℕ → Json → Capped Json
  cap_strings n null = record { value = null; changed = false }
  cap_strings n (bool b) = record { value = bool b; changed = false }
  cap_strings n (number t) = record { value = number t; changed = false }
  cap_strings n (string s) =
      let cut = truncate_with_marker s n in
      record { value = string cut.value; changed = cut.truncated }
  cap_strings n (array xs) =
      let r = cap_items n xs in record { value = array r.value; changed = r.changed }
  cap_strings n (object fs) =
      let r = cap_fields n fs in record { value = object r.value; changed = r.changed }

  pub cap_items : ℕ → Items → Capped Items
  cap_items n nil = record { value = nil; changed = false }
  cap_items n (cons x xs) =
      let r = cap_strings n x in
      let more = cap_items n xs in
      record { value = cons r.value more.value; changed = r.changed || more.changed }

  pub cap_fields : ℕ → Fields → Capped Fields
  cap_fields n end = record { value = end; changed = false }
  cap_fields n (field k x fs) =
      let r = cap_strings n x in
      let more = cap_fields n fs in
      record { value = field k r.value more.value; changed = r.changed || more.changed }

-- `out` and `truncated` of `fitItem`, which the three steps update.
pub record Progress : Type 0 where
  pub out : Fields
  pub truncated : Bool

cap_value : Str → ℕ → Progress → Option Json → Progress
cap_value key n p (some (string s)) =
    let cut = truncate_with_marker s n in
    if cut.truncated
    then record { out = set_field key (string cut.value) p.out; truncated = true }
    else p
cap_value key n p other = p

-- `truncated = capField(out, key, n) || truncated`
unfoldable pub cap_field : Str → ℕ → Progress → Progress
unfolding cap_value
cap_field key n p = cap_value key n p (get_field key p.out)

-- One round of the loop of step 1, and of step 2, over the metadata bags.
unfoldable pub cap_container : Str → Progress → Progress
cap_container key p = elim (get_field key p.out) [
  | none ↦ p
  | some x ↦
      let r = cap_strings truncate_field_bytes x in
      if r.changed then record { out = set_field key r.value p.out; truncated = true } else p
]

-- `JSON.stringify(item[key])`; where the item lacks the key the bag was not there in step 2.
abbrev original_bytes : Option Json → ℕ
original_bytes none = 0
original_bytes (some x) = utf8_byte_length (stringify x)

abbrev pub size_marker : ℕ → Json
size_marker n =
    object
      (field truncated_key (bool true) (field (units "original_bytes") (number (decimal n)) end))

unfoldable pub mark_container : Fields → Str → Progress → Progress
mark_container item key p = elim (get_field key p.out) [
  | none ↦ p
  | some x ↦ record {
    out = set_field key (size_marker (original_bytes (get_field key item))) p.out;
    truncated = true;
  }
]

unfoldable pub for_containers : (Str → Progress → Progress) → List Str → Progress → Progress
for_containers body [] p = p
for_containers body (key ∷ keys) p = for_containers body keys (body key p)

unfoldable pub measure : Fields → ℕ
measure fs = utf8_byte_length (stringify (object fs))

unfoldable pub step_one : Fields → Progress
step_one item =
    let p =
      cap_field message_key truncate_message_bytes (record { out = item; truncated = false }) in
    let q = for_containers cap_container containers (cap_field stack_key truncate_stack_bytes p) in
    record q { out = set_field truncated_key (bool true) q.out }

unfoldable pub step_two : Fields → ℕ → Progress → Progress
step_two item budget p =
    if ltb budget (measure p.out) then for_containers (mark_container item) containers p else p

unfoldable pub step_three : ℕ → Progress → Progress
step_three budget p =
    if ltb budget (measure p.out)
    then cap_field stack_key truncate_stack_final_bytes
        (cap_field message_key truncate_message_final_bytes p)
    else p

unfoldable pub clear_mark : Progress → Fields
clear_mark p = if p.truncated then p.out else delete_field truncated_key p.out

pub record FitResult : Type 0 where
  pub item : Fields
  pub json : Str
  pub bytes : ℕ
  pub truncated : Bool
  pub oversized : Bool

abbrev pub fit_result : ℕ → Fields → Bool → FitResult
fit_result budget item truncated = record {
  item = item;
  json = stringify (object item);
  bytes = measure item;
  truncated = truncated;
  oversized = ltb budget (measure item);
}

unfoldable pub fit_item : Fields → ℕ → FitResult
fit_item item budget =
    let p = step_three budget (step_two item budget (step_one item)) in
    if leb (measure item) budget
    then fit_result budget item false
    else fit_result budget (clear_mark p) p.truncated

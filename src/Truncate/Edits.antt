-- ===== src/Truncate/Edits.antt =====
-- The writes that the steps of `fitItem` of core/src/truncate.ts make.
use watchup_v3_packages.Prelude.{
  ℕ, ◌≡◌, refl, ap, ◌∙◌, inl, inr, true, false, List, [], ◌∷◌, any, All, ltb, Option, some,
  Bool-cases, Option-cases, same, same_iff,
}
use watchup_v3_packages.Utf8.{Str, truncate_with_marker}
use watchup_v3_packages.Json.{Json, string, Fields}
use watchup_v3_packages.Json.Access.{get_field, set_field, get_field-set_field}
use watchup_v3_packages.Truncate.{
  message_key, stack_key, containers, Progress, cap_value, cap_field, cap_container, mark_container,
  for_containers, measure, step_two, step_three, truncate_message_bytes, truncate_stack_bytes,
  cap_strings, truncate_field_bytes,
}

-- The keys that the steps may write, besides the mark.
abbrev pub editable : List Str
editable = message_key ∷ stack_key ∷ containers

abbrev pub IsEditable : Str → Type 0
IsEditable key = any (same key) editable ≡ true

-- `q` comes from `p` by writes at editable keys, each of which sets `truncated`.
pub data Edits (p : Progress) : Progress → Type 0 where
  done : Edits p p
  write :
      {q r : Progress} (key : Str) (value : Json)
      → Edits p q
      → IsEditable key
      → r ≡ record { out = set_field key value q.out; truncated = true }
      → Edits p r

pub Edits-untouched :
    {p q : Progress} → Edits p q → q.truncated ≡ false → (q.out ≡ p.out) × (p.truncated ≡ false)
Edits-untouched done h = (refl, h)
Edits-untouched (write key value e k same_r) h = cc (ap (λ (r : Progress). r.truncated) same_r)

pub Edits-others :
    {p q : Progress} (j : Str)
    → any (same j) editable ≡ false
    → Edits p q
    → get_field j q.out ≡ get_field j p.out
Edits-others j other done = refl
Edits-others {p} j other (write {q} {r} key value e k same_r) =
    ap (λ (r : Progress). get_field j r.out) same_r
    ∙ get_field-set_field j key value q.out
    ∙ elim (Bool-cases (same key j)) [
      | inl hit ↦
          let key_is : key ≡ j = (same_iff key j).0 hit in
          cc (ap (λ (s : Str). any (same s) editable) key_is)
      | inr miss ↦ rw miss (Edits-others j other e)
    ]

cap_value-Edits :
    (key : Str) (n : ℕ) (p q : Progress) (o : Option Json)
    → IsEditable key
    → Edits p q
    → Edits p (cap_value key n q o)
unfolding cap_value
cap_value-Edits key n p q (some (string s)) k e =
    elim (Bool-cases (truncate_with_marker s n).truncated) [
      | inl cut ↦ rw cut (write key (string (truncate_with_marker s n).value) e k refl)
      | inr fit ↦ rw fit e
    ]
cap_value-Edits key n p q o k e = e

cap_field-Edits :
    (key : Str) (n : ℕ) (p q : Progress) → IsEditable key → Edits p q → Edits p (cap_field key n q)
unfolding cap_field
cap_field-Edits key n p q k e = cap_value-Edits key n p q (get_field key q.out) k e

cap_container-Edits :
    (key : Str) (p q : Progress) → IsEditable key → Edits p q → Edits p (cap_container key q)
unfolding cap_container
cap_container-Edits key p q k e = elim (Option-cases (get_field key q.out)) [
  | inl missing ↦ rw (missing, cap_container) e
  | inr (x, found) ↦ elim (Bool-cases (cap_strings truncate_field_bytes x).changed) [
    | inl cut ↦ rw (found, cap_container) (rw cut (write key _ e k refl))
    | inr fit ↦ rw (found, cap_container) (rw fit e)
  ]
]

mark_container-Edits :
    (item : Fields) (key : Str) (p q : Progress)
    → IsEditable key
    → Edits p q
    → Edits p (mark_container item key q)
unfolding mark_container
mark_container-Edits item key p q k e = elim (Option-cases (get_field key q.out)) [
  | inl missing ↦ rw (missing, mark_container) e
  | inr (x, found) ↦ rw (found, mark_container) (write key _ e k refl)
]

for_containers-Edits :
    (body : Str → Progress → Progress)
    → ((key : Str) (p q : Progress) → IsEditable key → Edits p q → Edits p (body key q))
    → (keys : List Str) (p q : Progress) → All IsEditable keys
    → Edits p q
    → Edits p (for_containers body keys q)
unfolding for_containers
for_containers-Edits body one [] p q k e = e
for_containers-Edits body one (key ∷ keys) p q k e =
    for_containers-Edits body one keys p (body key q) k.1 (one key p q k.0 e)

containers-IsEditable : All IsEditable containers
unfolding same
containers-IsEditable = (refl, (refl, (refl, tt)))

-- Step 1 before the mark is set.
abbrev pub capped : Fields → Progress
capped item = for_containers cap_container containers (
    cap_field stack_key truncate_stack_bytes
      (cap_field message_key truncate_message_bytes (record { out = item; truncated = false })))

pub capped-Edits : (item : Fields) → Edits (record { out = item; truncated = false }) (capped item)
unfolding same
capped-Edits item =
    for_containers-Edits cap_container cap_container-Edits containers _ _ containers-IsEditable (
      cap_field-Edits stack_key truncate_stack_bytes _ _ refl
        (cap_field-Edits message_key truncate_message_bytes _ _ refl done))

pub step_two-Edits :
    (item : Fields) (budget : ℕ) (p q : Progress) → Edits p q → Edits p (step_two item budget q)
unfolding step_two
step_two-Edits item budget p q e = elim (Bool-cases (ltb budget (measure q.out))) [
  | inl over ↦ rw over (
      for_containers-Edits (mark_container item) (mark_container-Edits item) containers p q
        containers-IsEditable e)
  | inr fit ↦ rw fit e
]

pub step_three-Edits : (budget : ℕ) (p q : Progress) → Edits p q → Edits p (step_three budget q)
unfolding step_three same
step_three-Edits budget p q e = elim (Bool-cases (ltb budget (measure q.out))) [
  | inl over ↦
      rw over (cap_field-Edits stack_key _ p _ refl (cap_field-Edits message_key _ p q refl e))
  | inr fit ↦ rw fit e
]

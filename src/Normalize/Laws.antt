-- ===== src/Normalize/Laws.antt =====
-- What core/src/normalize.ts lets through, whatever it is given.
use watchup_v3_packages.Prelude.{
  ℕ, zero, suc, ◌+◌, ◌≡◌, inl, inr, false, List, [], ◌∷◌, Option, none, some, Bool-cases, any,
  length, map, ◌==◌,
}
use watchup_v3_packages.Utf8.{Str}
use watchup_v3_packages.Json.{Json, string, Items, Fields, end}
use watchup_v3_packages.Normalize.Keys.{canonical_key, is_sensitive_key}
use watchup_v3_packages.Normalize.Walk.{
  Value, ErrorCell, Cell, date, binary, error, with_to_json, list, plain, Out, unserializable,
  name_key, error_message_key, error_stack_key, dropped_key, with_stack, error_head, read_all,
  max_depth, max_array, error_loop, list_loop, entry_loop, walk_entries, caught, walk_to_json,
  walk_cell, object_of, array_of, walk, normalize, omitted, null_value, truth, numeral, bigint,
  text, ref,
}
use watchup_v3_packages.Normalize.Clean.{
  IsClean, HasClean, weaken, OutClean, FieldsClean, ItemsClean, error_loop-FieldsClean,
  list_loop-ItemsClean, entry_loop-FieldsClean,
}

module _ (to_lower : Str → Str) (extra : List Str) where
  -- The keys that `normalize` writes itself are not among the caller's.
  pub record OwnKeysOpen : Type 0 where
    pub name_open : is_sensitive_key to_lower extra name_key ≡ false
    pub message_open : is_sensitive_key to_lower extra error_message_key ≡ false
    pub stack_open : is_sensitive_key to_lower extra error_stack_key ≡ false
    pub dropped_open : is_sensitive_key to_lower extra dropped_key ≡ false

  module _ (own : OwnKeysOpen) where
    with_stack-HasClean : (n : ℕ) (o : Option Str) → HasClean to_lower extra n (with_stack o)
    unfolding IsClean
    with_stack-HasClean n none = tt
    with_stack-HasClean n (some []) = tt
    with_stack-HasClean n (some (c ∷ s)) = (inl own.stack_open, tt, tt)

    error_head-HasClean : (n : ℕ) (e : ErrorCell) → HasClean to_lower extra n (error_head e)
    unfolding IsClean
    error_head-HasClean n e =
        (inl own.name_open, tt, (inl own.message_open, tt, with_stack-HasClean n e.stack))

    leaf_string : (n : ℕ) (s : Str) → IsClean to_lower extra n (string s)
    unfolding IsClean
    leaf_string n s = tt

    module _ (n : ℕ) (w : Value → Out) (clean : (v : Value) → OutClean to_lower extra n (w v)) where
      object_clean :
          (o : Option Fields)
          → FieldsClean to_lower extra n o
          → OutClean to_lower extra (suc n) (object_of to_lower extra o)
      unfolding IsClean
      object_clean none h = tt
      object_clean (some fs) h = h

      array_clean :
          (o : Option Items)
          → ItemsClean to_lower extra n (max_array + 1) o
          → OutClean to_lower extra (suc n) (array_of to_lower extra o)
      unfolding IsClean
      array_clean none h = tt
      array_clean (some xs) h = h

      entries_clean :
          (o : Option (List (Str × Value)))
          → OutClean to_lower extra (suc n) (walk_entries to_lower extra w o)
      unfolding walk_entries IsClean
      entries_clean none = tt
      entries_clean (some es) =
          object_clean (entry_loop to_lower extra w (length es) 0 end es) (
            entry_loop-FieldsClean to_lower extra n w clean own.dropped_open (length es) 0 es end
              tt)

      caught_clean :
          (o : Out)
          → OutClean to_lower extra n o
          → OutClean to_lower extra (suc n) (caught to_lower extra o)
      unfolding IsClean
      caught_clean none h = tt
      caught_clean (some none) h = tt
      caught_clean (some (some j)) h = weaken to_lower extra n j h

      to_json_clean :
          (o : Option Value) → OutClean to_lower extra (suc n) (walk_to_json to_lower extra w o)
      unfolding walk_to_json IsClean
      to_json_clean none = tt
      to_json_clean (some v) = caught_clean (w v) (clean v)

      cell_clean : (c : Cell) → OutClean to_lower extra (suc n) (walk_cell to_lower extra w c)
      unfolding walk_cell IsClean
      cell_clean (date none) = tt
      cell_clean (date (some iso)) = tt
      cell_clean (binary size) = tt
      cell_clean (error e) = object_clean (error_loop to_lower extra w (error_head e) e.own) (
          error_loop-FieldsClean to_lower extra n w clean e.own (error_head e)
            (error_head-HasClean n e))
      cell_clean (with_to_json v) = to_json_clean v
      cell_clean (list vs) =
          array_clean (list_loop to_lower extra w max_array vs)
            (list_loop-ItemsClean to_lower extra n w clean max_array vs)
      cell_clean (plain es) = entries_clean (read_all es)

    walk_clean :
        (heap : ℕ → Cell) (left : ℕ) (ancestors : List ℕ) (v : Value)
        → OutClean to_lower extra left (walk to_lower extra heap left ancestors v)
    unfolding walk IsClean
    walk_clean heap left ancestors omitted = tt
    walk_clean heap left ancestors null_value = tt
    walk_clean heap left ancestors (truth b) = tt
    walk_clean heap left ancestors (numeral none) = tt
    walk_clean heap left ancestors (numeral (some t)) = tt
    walk_clean heap left ancestors (bigint t) = tt
    walk_clean heap left ancestors (text s) = tt
    walk_clean heap zero ancestors (ref p) = elim (Bool-cases (any (λ q. q == p) ancestors)) [
      | inl again ↦ rw again tt
      | inr first ↦ rw first tt
    ]
    walk_clean heap (suc left) ancestors (ref p) = elim (Bool-cases (any (λ q. q == p) ancestors)) [
      | inl again ↦ rw again tt
      | inr first ↦ rw first (
          cell_clean left (walk to_lower extra heap left (p ∷ ancestors))
            (walk_clean heap left (p ∷ ancestors)) (heap p))
    ]

-- The result of `normalize`, if there is one.
abbrev pub ResultClean : (Str → Str) → List Str → Option Json → Type 0
ResultClean to_lower extra none = Unit
ResultClean to_lower extra (some j) = IsClean to_lower extra max_depth j

result_clean :
    (to_lower : Str → Str) (extra : List Str) (o : Out)
    → OutClean to_lower extra max_depth o
    → ResultClean to_lower extra (elim o [ none ↦ some unserializable | some v ↦ v ])
unfolding IsClean
result_clean to_lower extra none h = tt
result_clean to_lower extra (some none) h = tt
result_clean to_lower extra (some (some j)) h = h

-- Whatever objects the heap holds, cycles and throwing getters included, `normalize` returns, and
-- what it returns has at most 10 levels, arrays of at most 201 items, and under each sensitive
-- key, built in or the caller's, nothing but "[REDACTED]"; where the caller's keys are none of the
-- four that `normalize` writes itself.
pub normalize-ResultClean :
    (to_lower : Str → Str) (redact_keys : List Str) (heap : ℕ → Cell) (value : Value)
    → OwnKeysOpen to_lower (map (canonical_key to_lower) redact_keys)
    → ResultClean to_lower
        (map (canonical_key to_lower) redact_keys)
        (normalize to_lower redact_keys heap value)
unfolding normalize
normalize-ResultClean to_lower redact_keys heap value own =
    let extra = map (canonical_key to_lower) redact_keys in
    result_clean to_lower extra (walk to_lower extra heap max_depth [] value)
      (walk_clean to_lower extra own heap max_depth [] value)

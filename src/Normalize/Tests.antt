-- ===== src/Normalize/Tests.antt =====
-- `normalize` of core/src/normalize.ts on small heaps, and the scrubber on small texts.
use watchup_v3_packages.Prelude.{ℕ, ◌≡◌, refl, true, [], ◌∷◌, arith, some, map, same}
use watchup_v3_packages.Utf8.{Str, units}
use watchup_v3_packages.Json.{string, object, end, field}
use watchup_v3_packages.Json.Access.{set_field}
use watchup_v3_packages.Flags.{includes}
use watchup_v3_packages.Normalize.Scrub.{
  fold_case, count_while, strip, replace_all, credential_length, auth_behind, auth_scheme,
  live_behind, live_key, query_behind, sensitive_query, holds_literal,
}
use watchup_v3_packages.Normalize.Scrub.Cards.{
  luhn_loop, luhn_valid, card_length, card_match, card_number, has_four_digits, scrub_auth,
  scrub_live, scrub_query, scrub_cards, scrub_string,
}
use watchup_v3_packages.Normalize.Scrub.Luhn.{luhn_valid_one}
use watchup_v3_packages.Normalize.Keys.{
  ends_with, canonical_key, is_sensitive_canonical, is_sensitive_key,
}
use watchup_v3_packages.Normalize.Walk.{
  text, ref, Cell, plain, assign, read_all, entry_loop, walk_entries, walk_cell, walk, normalize,
}
use watchup_v3_packages.Normalize.Laws.{OwnKeysOpen, ResultClean, normalize-ResultClean}

abbrev test_lower : Str → Str
test_lower = map fold_case

-- One object with a password and itself.
abbrev test_heap : ℕ → Cell
test_heap p = plain (
    (units "Pass-Word", some (text (units "hunter2")))
    ∷ (units "self", some (ref 0))
    ∷ (units "plan", some (text (units "pro")))
    ∷ [])

test_normalize :
    normalize test_lower [] test_heap (ref 0)
    ≡ some (
        object (
          field (units "Pass-Word") (string (units "[REDACTED]")) (
            field
              (units "self")
              (string (units "[Circular]"))
              (field (units "plan") (string (units "pro")) end))))
unfolding normalize walk walk_cell walk_entries entry_loop read_all assign set_field same ends_with
    includes canonical_key is_sensitive_canonical is_sensitive_key scrub_string
test_normalize = refl

test_own_keys : OwnKeysOpen test_lower (map (canonical_key test_lower) (units "plan" ∷ []))
unfolding same ends_with includes canonical_key is_sensitive_canonical is_sensitive_key
test_own_keys = record {
  name_open = refl;
  message_open = refl;
  stack_open = refl;
  dropped_open = refl;
}

normalize-ResultClean_example :
    ResultClean test_lower
      (map (canonical_key test_lower) (units "plan" ∷ []))
      (normalize test_lower (units "plan" ∷ []) test_heap (ref 0))
normalize-ResultClean_example =
    normalize-ResultClean test_lower (units "plan" ∷ []) test_heap (ref 0) test_own_keys

-- 18, and no other number of the form 1x.
test_luhn : luhn_valid (49 ∷ 56 ∷ []) ≡ true
unfolding luhn_valid luhn_loop
test_luhn = refl

luhn_valid_one_example : ◌≡◌ {A = ℕ} 56 56
unfolding luhn_valid luhn_loop
luhn_valid_one_example =
    luhn_valid_one (49 ∷ []) [] 56 56 (omega arith) (omega arith) (omega arith) (omega arith) refl
      refl

test_bearer : scrub_string (units "Bearer abcdefgh1234") ≡ units "Bearer [REDACTED]"
unfolding scrub_string scrub_auth scrub_live scrub_query scrub_cards has_four_digits card_number
    card_match card_length luhn_valid luhn_loop holds_literal sensitive_query query_behind live_key
    live_behind auth_scheme auth_behind credential_length replace_all strip count_while
test_bearer = refl

test_card : scrub_string (units "card 4111 1111 1111 1111.") ≡ units "card [REDACTED]."
unfolding scrub_string scrub_auth scrub_live scrub_query scrub_cards has_four_digits card_number
    card_match card_length luhn_valid luhn_loop holds_literal sensitive_query query_behind live_key
    live_behind auth_scheme auth_behind credential_length replace_all strip count_while
test_card = refl

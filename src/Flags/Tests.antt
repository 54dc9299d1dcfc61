-- ===== src/Flags/Tests.antt =====
-- core/src/flags.ts on a store with one flag, rolled out to everybody.
use watchup_v3_packages.Prelude.{◌≡◌, refl, ◌↔◌, ◌⊎◌, true, false, [], ◌∷◌, arith, none, some, pos}
use watchup_v3_packages.Utf8.{units}
use watchup_v3_packages.Flags.{
  FeatureFlag, FlagContext, FlagStore, flag_bucket, evaluate, find_flag, is_expired, is_enabled,
  get_variant, matches_targeting,
}
use watchup_v3_packages.Flags.Laws.{IsOn, is_enabled_iff}
use watchup_v3_packages.Flags.Variants.{IsPick, get_variant_cases, with_rollout, evaluate-raise}

abbrev test_flag : FeatureFlag
test_flag = record {
  key = units "new";
  enabled = true;
  rollout_percentage = pos 100;
  variants = record { key = units "a"; weight = 50 } ∷ record { key = units "b"; weight = 50 } ∷ [];
  targeting_rules = [];
}

abbrev test_store : FlagStore
test_store = record {
  flags = test_flag ∷ [];
  fetched_at = 10;
  loaded = true;
  max_age_ms = 1000;
  listeners = [];
}

abbrev no_context : FlagContext
no_context = λ name. none

is_enabled_iff_example : (is_enabled 20 (units "new") no_context (units "v1") test_store ≡ true) ↔ (
    (flag : FeatureFlag) × (is_expired 20 test_store ≡ false)
    × (find_flag (units "new") test_store.flags ≡ some flag)
    × IsOn flag (units "new") no_context (units "v1"))
is_enabled_iff_example = is_enabled_iff 20 (units "new") no_context (units "v1") test_store

get_variant_cases_example :
    ((is_enabled 20 (units "new") no_context (units "v1") test_store ≡ false)
      × (get_variant 20 (units "new") no_context (units "v1") test_store ≡ units "control"))
    ⊎ ((is_enabled 20 (units "new") no_context (units "v1") test_store ≡ true)
        × ((flag : FeatureFlag) × (find_flag (units "new") test_store.flags ≡ some flag)
            × (((flag.variants ≡ [])
                  × (get_variant 20 (units "new") no_context (units "v1") test_store ≡ units "on"))
                ⊎ IsPick
                    (flag_bucket (units "new") (units "v1"))
                    flag.variants
                    (get_variant 20 (units "new") no_context (units "v1") test_store))))
get_variant_cases_example = get_variant_cases 20 (units "new") no_context (units "v1") test_store

test_flag_on : evaluate (with_rollout 100 test_flag) (units "new") no_context (units "v1") ≡ true
unfolding evaluate matches_targeting
test_flag_on = refl

evaluate-raise_example :
    evaluate (with_rollout 120 test_flag) (units "new") no_context (units "v1") ≡ true
evaluate-raise_example =
    evaluate-raise 100 120 test_flag (units "new") no_context (units "v1") (omega arith)
      test_flag_on

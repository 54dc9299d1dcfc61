-- ===== src/Flags/Laws.antt =====
-- When core/src/flags.ts turns a flag on.
use watchup_v3_packages.Prelude.{
  ℕ, ◌≡◌, refl, sym, ap, ◌∙◌, ◌↔◌, ◌⊎◌, Bool, true, false, arith, Option, none, some, ℤ, pos,
  negsuc, if◌then◌else◌, not,
}
use watchup_v3_packages.Utf8.{Str}
use watchup_v3_packages.Flags.{
  FeatureFlag, FlagContext, flag_bucket, matches_targeting, FlagStore, is_expired, find_flag,
  get_flag, bucket_id, is_blank, below, evaluate, evaluate_found, is_enabled,
}

-- What turns a flag on for a user.
pub record IsOn (flag : FeatureFlag) (key : Str) (ctx : FlagContext) (fallback_id : Str)
    : Type 0 where
  pub enabled : flag.enabled ≡ true
  pub targeted : matches_targeting flag ctx ≡ true
  pub rolled_out :
      (below 99 flag.rollout_percentage ≡ true)
      ⊎ ((is_blank (bucket_id ctx fallback_id) ≡ false)
          × (below (flag_bucket key (bucket_id ctx fallback_id)) flag.rollout_percentage ≡ true))

-- The tests of `evaluate`, on their results.
gates : Bool → Bool → Bool → Bool → Bool → Bool → Bool
gates e t full some_on blank hit =
    if not e
    then false
    else if not t
    then false
    else if full
    then true
    else if not some_on
    then false
    else if blank
    then false
    else hit

gates_sound :
    (e t full some_on blank hit : Bool)
    → gates e t full some_on blank hit ≡ true
    → (e ≡ true) × (t ≡ true) × ((full ≡ true) ⊎ ((blank ≡ false) × (hit ≡ true)))
unfolding gates
gates_sound e t full some_on blank hit h = ground arith

gates_complete :
    (e t full some_on blank hit : Bool)
    → (e ≡ true)
    → (t ≡ true)
    → ((full ≡ true) ⊎ ((blank ≡ false) × (hit ≡ true)))
    → (hit ≡ true → some_on ≡ true)
    → gates e t full some_on blank hit ≡ true
unfolding gates
gates_complete e t full some_on blank hit he ht hf hs = ground arith

below-positive : (n : ℕ) (z : ℤ) → below n z ≡ true → below 0 z ≡ true
below-positive n (pos z) h = ground arith
below-positive n (negsuc z) h = h

module _ (flag : FeatureFlag) (key : Str) (ctx : FlagContext) (fallback_id : Str) where
  abbrev full : Bool
  full = below 99 flag.rollout_percentage

  abbrev some_on : Bool
  some_on = below 0 flag.rollout_percentage

  abbrev blank : Bool
  blank = is_blank (bucket_id ctx fallback_id)

  abbrev hit : Bool
  hit = below (flag_bucket key (bucket_id ctx fallback_id)) flag.rollout_percentage

  evaluate-gates :
      evaluate flag key ctx fallback_id
      ≡ gates flag.enabled (matches_targeting flag ctx) full some_on blank hit
  unfolding evaluate gates
  evaluate-gates = refl

  pub evaluate_sound : evaluate flag key ctx fallback_id ≡ true → IsOn flag key ctx fallback_id
  evaluate_sound h =
      let r =
        gates_sound flag.enabled (matches_targeting flag ctx) full some_on blank hit
          (sym evaluate-gates ∙ h) in
      record { enabled = r.0; targeted = r.1; rolled_out = r.2 }

  pub evaluate_complete : IsOn flag key ctx fallback_id → evaluate flag key ctx fallback_id ≡ true
  evaluate_complete v =
      evaluate-gates
      ∙ gates_complete flag.enabled (matches_targeting flag ctx) full some_on blank hit v.enabled
          v.targeted v.rolled_out
          (below-positive (flag_bucket key (bucket_id ctx fallback_id)) flag.rollout_percentage)

found_sound :
    (o : Option FeatureFlag) (key : Str) (ctx : FlagContext) (fallback_id : Str)
    → evaluate_found o key ctx fallback_id ≡ true
    → (flag : FeatureFlag) × (o ≡ some flag) × IsOn flag key ctx fallback_id
unfolding evaluate_found
found_sound none key ctx fallback_id h = cc
found_sound (some flag) key ctx fallback_id h =
    (flag, refl, evaluate_sound flag key ctx fallback_id h)

get_flag-some :
    (now : ℕ) (key : Str) (s : FlagStore) (flag : FeatureFlag)
    → get_flag now key s ≡ some flag
    → (is_expired now s ≡ false) × (find_flag key s.flags ≡ some flag)
unfolding get_flag
get_flag-some now key s flag h = ground arith

pub get_flag-fresh :
    (now : ℕ) (key : Str) (s : FlagStore)
    → is_expired now s ≡ false
    → get_flag now key s ≡ find_flag key s.flags
unfolding get_flag
get_flag-fresh now key s h = ground arith

-- A flag is enabled for a user exactly if the store has it and has not expired, it is switched on,
-- every targeting rule passes, and either the rollout is at least 100 or the user has an id whose
-- bucket is below the rollout.
pub is_enabled_iff :
    (now : ℕ) (key : Str) (ctx : FlagContext) (fallback_id : Str) (s : FlagStore)
    → (is_enabled now key ctx fallback_id s ≡ true) ↔ (
        (flag : FeatureFlag) × (is_expired now s ≡ false)
        × (find_flag key s.flags ≡ some flag)
        × IsOn flag key ctx fallback_id)
unfolding is_enabled evaluate_found
is_enabled_iff now key ctx fallback_id s = (
  (λ h.
      let f = found_sound (get_flag now key s) key ctx fallback_id h in
      let g = get_flag-some now key s f.0 f.1 in (f.0, g.0, g.1, f.2)),
  (λ v.
      ap (λ o. evaluate_found o key ctx fallback_id) (get_flag-fresh now key s v.1 ∙ v.2)
      ∙ evaluate_complete v.0 key ctx fallback_id v.3),
)

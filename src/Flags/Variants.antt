-- ===== src/Flags/Variants.antt =====
-- Which variant core/src/flags.ts picks, and how a rollout grows.
use watchup_v3_packages.Prelude.{
  ℕ, ◌+◌, ◌≤◌, ◌<◌, ◌≡◌, refl, sym, subst, ap, ◌∙◌, ◌⊎◌, inl, inr, true, false, List, [], ◌∷◌, ◌++◌,
  arith, sum_of, ltb, some, Bool-cases, pos, if◌then◌else◌, ltb→lt, ltb→le, lt→ltb,
}
use watchup_v3_packages.Utf8.{Str, units}
use watchup_v3_packages.Flags.{
  FlagVariant, FeatureFlag, FlagContext, FlagStore, flag_bucket, bucket_id, is_blank, below,
  get_flag, is_enabled, find_flag, evaluate, matches_targeting, pick_variant, variant_of,
  variant_found, get_variant,
}
use watchup_v3_packages.Flags.Laws.{
  IsOn, is_enabled_iff, get_flag-fresh, evaluate_sound, evaluate_complete,
}

-- A variant stands for the buckets from the sum of the weights before it up to that sum with its
-- own; the last one stands for the buckets behind as well.
pub record IsPick (bucket : ℕ) (vs : List FlagVariant) (key : Str) : Type 0 where
  pub before : List FlagVariant
  pub picked : FlagVariant
  pub after : List FlagVariant
  pub listed : vs ≡ before ++ picked ∷ after
  pub named : key ≡ picked.key
  pub from : sum_of (λ v. v.weight) before ≤ bucket
  pub up_to : (bucket < sum_of (λ v. v.weight) before + picked.weight) ⊎ (after ≡ [])

-- The same with `start` in place of 0.
record IsPickFrom (start bucket : ℕ) (vs : List FlagVariant) (key : Str) : Type 0 where
  before : List FlagVariant
  picked : FlagVariant
  after : List FlagVariant
  listed : vs ≡ before ++ picked ∷ after
  named : key ≡ picked.key
  from : start + sum_of (λ v. v.weight) before ≤ bucket
  up_to : (bucket < start + sum_of (λ v. v.weight) before + picked.weight) ⊎ (after ≡ [])

pick_lem :
    (bucket start : ℕ) (v : FlagVariant) (vs : List FlagVariant)
    → start ≤ bucket
    → IsPickFrom start bucket (v ∷ vs) (pick_variant bucket start v vs)
unfolding pick_variant
pick_lem bucket start v [] h = record {
  before = [];
  picked = v;
  after = [];
  listed = refl;
  named = refl;
  from = omega (arith, h);
  up_to = inr refl;
}
pick_lem bucket start v (w ∷ ws) h = elim (Bool-cases (ltb bucket (start + v.weight))) [
  | inl e ↦ record {
    before = [];
    picked = v;
    after = w ∷ ws;
    listed = refl;
    named = rw e;
    from = omega (arith, h);
    up_to = inl (omega (arith, ltb→lt bucket (start + v.weight) e));
  }
  | inr e ↦
      let r = pick_lem bucket (start + v.weight) w ws (ltb→le bucket (start + v.weight) e) in
      record {
        before = v ∷ r.before;
        picked = r.picked;
        after = r.after;
        listed = ap (λ l. v ∷ l) r.listed;
        named = rw (e, r.named);
        from = omega (arith, r.from);
        up_to = elim r.up_to [ inl u ↦ inl (omega (arith, u)) | inr u ↦ inr u ];
      }
]

variant_lem :
    (key id : Str) (vs : List FlagVariant)
    → ((vs ≡ []) × (variant_of key id vs ≡ units "on"))
      ⊎ IsPick (if is_blank id then 0 else flag_bucket key id) vs (variant_of key id vs)
unfolding variant_of
variant_lem key id [] = inl (refl, refl)
variant_lem key id (v ∷ vs) =
    let r = pick_lem (if is_blank id then 0 else flag_bucket key id) 0 v vs (omega arith) in
    inr record {
      before = r.before;
      picked = r.picked;
      after = r.after;
      listed = r.listed;
      named = r.named;
      from = omega (arith, r.from);
      up_to = elim r.up_to [ inl u ↦ inl (omega (arith, u)) | inr u ↦ inr u ];
    }

module _ (now : ℕ) (key : Str) (ctx : FlagContext) (fallback_id : Str) (s : FlagStore) where
  abbrev id : Str
  id = bucket_id ctx fallback_id

  abbrev bucket : ℕ
  bucket = if is_blank id then 0 else flag_bucket key id

  off_lem :
      is_enabled now key ctx fallback_id s ≡ false
      → get_variant now key ctx fallback_id s ≡ units "control"
  unfolding get_variant
  off_lem e = rw e

  on_lem :
      is_enabled now key ctx fallback_id s ≡ true
      → (flag : FeatureFlag) → get_flag now key s ≡ some flag
      → get_variant now key ctx fallback_id s ≡ variant_of key id flag.variants
  unfolding get_variant variant_found
  on_lem e flag g = rw (e, g)

  -- A user for whom the flag is off gets "control". One for whom it is on gets "on" if the flag has
  -- no variants, and else the key of a variant whose weights, summed in order, hold the user's
  -- bucket, or of the last one if the sum ends below it.
  pub get_variant_cases :
      ((is_enabled now key ctx fallback_id s ≡ false)
        × (get_variant now key ctx fallback_id s ≡ units "control"))
      ⊎ ((is_enabled now key ctx fallback_id s ≡ true)
          × ((flag : FeatureFlag) × (find_flag key s.flags ≡ some flag)
              × (((flag.variants ≡ []) × (get_variant now key ctx fallback_id s ≡ units "on"))
                  ⊎ IsPick bucket flag.variants (get_variant now key ctx fallback_id s))))
  get_variant_cases = elim (Bool-cases (is_enabled now key ctx fallback_id s)) [
    | inr e ↦ inl (e, off_lem e)
    | inl e ↦
        let on = (is_enabled_iff now key ctx fallback_id s).0 e in
        let same_key = on_lem e on.0 (get_flag-fresh now key s on.1 ∙ on.2) in
        inr (
          e,
          (
            on.0,
            on.2,
            subst (λ k. ((on.0.variants ≡ []) × (k ≡ units "on")) ⊎ IsPick bucket on.0.variants k)
                (sym same_key) (variant_lem key id on.0.variants),
          ),
        )
  ]

abbrev pub with_rollout : ℕ → FeatureFlag → FeatureFlag
with_rollout n flag = record flag { rollout_percentage = pos n }

below_raise : (a b : ℕ) → a ≤ b → (n : ℕ) → below n (pos a) ≡ true → below n (pos b) ≡ true
below_raise a b h n l = lt→ltb n b (omega (arith, h, ltb→lt n a l))

IsOn-raise :
    (a b : ℕ) (flag : FeatureFlag) (key : Str) (ctx : FlagContext) (fallback_id : Str)
    → a ≤ b
    → IsOn (with_rollout a flag) key ctx fallback_id
    → IsOn (with_rollout b flag) key ctx fallback_id
unfolding matches_targeting
IsOn-raise a b flag key ctx fallback_id h v = record {
  enabled = v.enabled;
  targeted = v.targeted;
  rolled_out = elim v.rolled_out [
    | inl full ↦ inl (below_raise a b h 99 full)
    | inr hit ↦ inr (hit.0, below_raise a b h (flag_bucket key (bucket_id ctx fallback_id)) hit.1)
  ];
}

-- Raising the rollout of a flag, from one percentage to one at least as high, turns it off for
-- nobody for whom it was on.
pub evaluate-raise :
    (a b : ℕ) (flag : FeatureFlag) (key : Str) (ctx : FlagContext) (fallback_id : Str)
    → a ≤ b
    → evaluate (with_rollout a flag) key ctx fallback_id ≡ true
    → evaluate (with_rollout b flag) key ctx fallback_id ≡ true
evaluate-raise a b flag key ctx fallback_id h on =
    evaluate_complete (with_rollout b flag) key ctx fallback_id (
      IsOn-raise a b flag key ctx fallback_id h
        (evaluate_sound (with_rollout a flag) key ctx fallback_id on))

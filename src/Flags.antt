-- ===== src/Flags.antt =====
-- core/src/flags.ts: the cache of feature flags and their evaluation for a user.
pub mod Laws
pub mod Variants
mod Tests
use Prim.Native.Nat.{bit_xor}
use watchup_v3_packages.Prelude.{
  ℕ, suc, ◌+◌, ◌-◌, ◌*◌, ◌%◌, ◌^◌, ◌++◌, ◌==◌, ◌||◌, ◌&&◌, not, Bool, true, false, List, [], ◌∷◌,
  ltb, leb, if◌then◌else◌, Option, none, some, any, all, keep_if, ℤ, pos, negsuc, same,
}
use watchup_v3_packages.Utf8.{Str, units}

pub record FlagVariant : Type 0 where
  pub key : Str
  pub weight : ℕ

-- The operators of the type; `matchesTargeting` lets any other pass.
pub data Operator : Type 0 where
  is_in not_in contains equals unknown : Operator

pub record FlagTargetingRule : Type 0 where
  pub attribute : Str
  pub operator : Operator
  pub values : List Str

-- The fields that are read; rollout percentages are whole numbers, and weights are not negative.
pub record FeatureFlag : Type 0 where
  pub key : Str
  pub enabled : Bool
  pub rollout_percentage : ℤ
  pub variants : List FlagVariant
  pub targeting_rules : List FlagTargetingRule

-- `ctx[name]` as `String(…)` prints it; `none` stands for `undefined` and `null`.
abbrev pub FlagContext : Type 0
FlagContext = Str → Option Str

-- The loop of `flagBucket` on 32-bit patterns: `| 0` reduces modulo 2 ^ 32, and the product of a
-- signed value with 33 has the pattern of the product of the patterns.
unfoldable pub hash_loop : ℕ → Str → ℕ
hash_loop hash [] = hash
hash_loop hash (c ∷ s) = hash_loop (bit_xor (hash * 33 % 2 ^ 32) c % 2 ^ 32) s

unfoldable pub flag_bucket : Str → Str → ℕ
unfolding hash_loop
flag_bucket flag_key user_id = hash_loop 5381 (flag_key ++ (b':' ∷ user_id)) % 100

starts_with : Str → Str → Bool
starts_with [] s = true
starts_with (c ∷ p) [] = false
starts_with (c ∷ p) (d ∷ s) = c == d && starts_with p s

-- `s.includes(p)`
unfoldable pub includes : Str → Str → Bool
unfolding starts_with
includes p [] = starts_with p []
includes p (d ∷ s) = starts_with p (d ∷ s) || includes p s

-- `values[0] === val`, which is false for an empty list
abbrev pub first_is : Str → List Str → Bool
first_is val [] = false
first_is val (v ∷ vs) = same v val

abbrev pub or_empty : Option Str → Str
or_empty none = []
or_empty (some s) = s

unfoldable pub matches_rule : FlagContext → FlagTargetingRule → Bool
matches_rule ctx rule =
    let val = or_empty (ctx rule.attribute) in
    elim rule.operator [
      | is_in ↦ any (same val) rule.values
      | not_in ↦ not (any (same val) rule.values)
      | contains ↦ any (λ v. includes v val) rule.values
      | equals ↦ first_is val rule.values
      | unknown ↦ true
    ]

unfoldable pub matches_targeting : FeatureFlag → FlagContext → Bool
matches_targeting flag ctx = all (matches_rule ctx) flag.targeting_rules

-- The state of `FlagStore`. `flags` holds the last response; of two flags with one key the map has
-- the later. Listeners are known by numbers.
pub record FlagStore : Type 0 where
  pub flags : List FeatureFlag
  pub fetched_at : ℕ
  pub loaded : Bool
  pub max_age_ms : ℕ
  pub listeners : List ℕ

unfoldable pub new_store : Option ℕ → FlagStore
new_store max_age_ms = record {
  flags = [];
  fetched_at = 0;
  loaded = false;
  max_age_ms = elim max_age_ms [ none ↦ 86_400_000 | some ms ↦ ms ];
  listeners = [];
}

pub record Replaced : Type 0 where
  pub store : FlagStore
  pub notified : List ℕ

-- What a listener throws is caught.
unfoldable pub replace : ℕ → List FeatureFlag → FlagStore → Replaced
replace now flags s = record {
  store = record s { flags = flags; fetched_at = now; loaded = true };
  notified = s.listeners;
}

unfoldable pub unsubscribe : ℕ → FlagStore → FlagStore
unsubscribe listener s = record s { listeners = keep_if (λ l. not (l == listener)) s.listeners }

-- A set keeps a listener once, in the order of the first call.
unfoldable pub subscribe : ℕ → FlagStore → FlagStore
subscribe listener s =
    if any (λ l. l == listener) s.listeners
    then s
    else record s { listeners = s.listeners ++ listener ∷ [] }

unfoldable pub is_expired : ℕ → FlagStore → Bool
is_expired now s = not s.loaded || ltb s.max_age_ms (now - s.fetched_at)

-- A `Map` made from pairs in order: the last pair of a key counts.
unfoldable pub find_flag : Str → List FeatureFlag → Option FeatureFlag
find_flag key [] = none
find_flag key (f ∷ fs) = elim (find_flag key fs) [
  | some later ↦ some later
  | none ↦ if same f.key key then some f else none
]

unfoldable pub get_flag : ℕ → Str → FlagStore → Option FeatureFlag
get_flag now key s = if is_expired now s then none else find_flag key s.flags

-- `String(ctx.userId ?? ctx.email ?? fallbackId)`
abbrev pub first_of_three : Option Str → Option Str → Str → Str
first_of_three (some a) email fallback = a
first_of_three none (some b) fallback = b
first_of_three none none fallback = fallback

abbrev pub bucket_id : FlagContext → Str → Str
bucket_id ctx fallback_id = first_of_three (ctx (units "userId")) (ctx (units "email")) fallback_id

abbrev pub is_blank : Str → Bool
is_blank [] = true
is_blank (c ∷ s) = false

-- `n < z`
abbrev pub below : ℕ → ℤ → Bool
below n (pos z) = ltb n z
below n (negsuc z) = false

-- The tests of `isEnabled` once the flag is found.
unfoldable pub evaluate : FeatureFlag → Str → FlagContext → Str → Bool
evaluate flag key ctx fallback_id =
    let id = bucket_id ctx fallback_id in
    if not flag.enabled
    then false
    else if not (matches_targeting flag ctx)
    then false
    else if below 99 flag.rollout_percentage
    then true
    else if not (below 0 flag.rollout_percentage)
    then false
    else if is_blank id
    then false
    else below (flag_bucket key id) flag.rollout_percentage

evaluate_found : Option FeatureFlag → Str → FlagContext → Str → Bool
evaluate_found none key ctx fallback_id = false
evaluate_found (some flag) key ctx fallback_id = evaluate flag key ctx fallback_id

unfoldable pub is_enabled : ℕ → Str → FlagContext → Str → FlagStore → Bool
unfolding evaluate_found
is_enabled now key ctx fallback_id s = evaluate_found (get_flag now key s) key ctx fallback_id

-- The loop of `getVariant`, with the last variant's key behind it.
unfoldable pub pick_variant : ℕ → ℕ → FlagVariant → List FlagVariant → Str
pick_variant bucket cumulative v [] = v.key
pick_variant bucket cumulative v (w ∷ ws) =
    let more = pick_variant bucket (cumulative + v.weight) w ws in
    if ltb bucket (cumulative + v.weight) then v.key else more

variant_of : Str → Str → List FlagVariant → Str
variant_of key id [] = units "on"
variant_of key id (v ∷ vs) = pick_variant (if is_blank id then 0 else flag_bucket key id) 0 v vs

-- The flag is there wherever it is enabled; its absence is a case of the type only.
variant_found : Option FeatureFlag → Str → Str → Str
variant_found none key id = units "control"
variant_found (some flag) key id = variant_of key id flag.variants

unfoldable pub get_variant : ℕ → Str → FlagContext → Str → FlagStore → Str
unfolding variant_of variant_found
get_variant now key ctx fallback_id s =
    if is_enabled now key ctx fallback_id s
    then variant_found (get_flag now key s) key (bucket_id ctx fallback_id)
    else units "control"

-- The body of the response as it is read: whether `ok` holds, and `data.flags` if it is an array,
-- whose elements are taken as flags.
pub record FlagsBody : Type 0 where
  pub ok : Bool
  pub flags : Option (List FeatureFlag)

unfoldable pub parse_flags_response : FlagsBody → Option (List FeatureFlag)
parse_flags_response body = if not body.ok then none else body.flags

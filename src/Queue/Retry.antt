-- ===== src/Queue/Retry.antt =====
-- The delays between the attempts of core/src/queue.ts, and the limit on waiting chunks.
use watchup_v3_packages.Prelude.{
  ℕ, zero, suc, ◌-◌, ◌*◌, ◌^◌, ◌≤◌, ◌<◌, min, ◌≡◌, refl, ap, ◌∙◌, inl, inr, List, [], ◌∷◌, arith,
  Bool-cases, none, ltb, length, drop, ltb→lt, ltb→le, map, take,
}
use watchup_v3_packages.Types.{Chunk}
use watchup_v3_packages.Chunker.Count.{items_in}
use watchup_v3_packages.Queue.State.{Options, max_retry_chunks, Effect, diagnose, chunk_dropped}
use watchup_v3_packages.Queue.Drain.{random_unit, jittered, backoff, trim}

product_bound : (e r u : ℕ) → r < u → e * r ≤ e * u
product_bound zero r u h = omega arith
product_bound (suc e) r u h = omega (arith, product_bound e r u h)

-- Rounding a share between one half and one of `exp` stays between them.
jittered_bounds :
    (random exp : ℕ)
    → random < random_unit
    → (exp ≤ 2 * jittered random_unit random exp) × (jittered random_unit random exp ≤ exp)
unfolding jittered
jittered_bounds random exp h = (
  omega (arith, product_bound exp random random_unit h),
  omega (arith, product_bound exp random random_unit h),
)

-- A delay without a `Retry-After` is at least half of the doubled base delay, capped at
-- `maxBackoffMs`, and at most the whole of it.
pub backoff_bounds :
    (opts : Options) (random attempt : ℕ)
    → random < random_unit
    → let exp = min opts.max_backoff_ms (opts.base_backoff_ms * 2 ^ (attempt - 1)) in
      (exp ≤ 2 * backoff opts random attempt none) × (backoff opts random attempt none ≤ exp)
unfolding backoff
backoff_bounds opts random attempt h =
    jittered_bounds random (min opts.max_backoff_ms (opts.base_backoff_ms * 2 ^ (attempt - 1))) h

drop_within : (n : ℕ) (cs : List Chunk) → n ≡ 0 → cs ≡ drop n cs
drop_within n cs h = rw h refl

drop_over : (n m : ℕ) (c : Chunk) (cs : List Chunk) → n ≡ suc m → drop m cs ≡ drop n (c ∷ cs)
drop_over n m c cs h = rw h refl

-- The report of a chunk that is dropped because too many wait: its key, and the number of its items.
abbrev pub report_dropped : Chunk → Effect
report_dropped c = diagnose (
    chunk_dropped (record {
      idempotency_key = c.idempotency_key;
      attempt = none;
      items = items_in c;
      status = none;
      code = none;
      error = none;
    }))

report_within : (n : ℕ) (cs : List Chunk) → n ≡ 0 → [] ≡ map report_dropped (take n cs)
report_within n cs h = rw h refl

report_over :
    (n m : ℕ) (c : Chunk) (cs : List Chunk)
    → n ≡ suc m
    → (effects : List Effect) → effects ≡ map report_dropped (take m cs)
    → report_dropped c ∷ effects ≡ map report_dropped (take n (c ∷ cs))
report_over n m c cs h effects e = rw h (ap (◌∷◌ (report_dropped c)) e)

trimmed_lem :
    (cs : List Chunk)
    → ((trim cs).retry ≡ drop (length cs - max_retry_chunks) cs)
      × ((trim cs).dropped ≡ length cs - max_retry_chunks)
      × ((trim cs).effects ≡ map report_dropped (take (length cs - max_retry_chunks) cs))
unfolding trim
trimmed_lem [] = (refl, refl, refl)
trimmed_lem (c ∷ cs) = elim (Bool-cases (ltb max_retry_chunks (length (c ∷ cs)))) [
  | inl over ↦
      let r = trimmed_lem cs in
      let n = ltb→lt max_retry_chunks (length (c ∷ cs)) over in
      rw over (
        r.0
            ∙ drop_over (suc (length cs) - max_retry_chunks) (length cs - max_retry_chunks) c cs
                (omega (arith, n)),
        omega (arith, n, r.1),
        report_over (suc (length cs) - max_retry_chunks) (length cs - max_retry_chunks) c cs
            (omega (arith, n)) (trim cs).effects r.2,
      )
  | inr fit ↦
      let n = ltb→le max_retry_chunks (length (c ∷ cs)) fit in
      rw fit (
        drop_within (suc (length cs) - max_retry_chunks) (c ∷ cs) (omega (arith, n)),
        omega (arith, n),
        report_within (suc (length cs) - max_retry_chunks) (c ∷ cs) (omega (arith, n)),
      )
]

length-drop : (n : ℕ) (cs : List Chunk) → length (drop n cs) ≡ length cs - n
length-drop zero cs = omega arith
length-drop (suc n) [] = omega arith
length-drop (suc n) (c ∷ cs) = omega (arith, length-drop n cs)

-- Of the chunks that wait for a retry the newest 50 are kept; each older one is dropped, counted,
-- and reported by its own `chunk_dropped` diagnostic, in order, with its key and number of items.
pub trim_newest :
    (cs : List Chunk)
    → ((trim cs).retry ≡ drop (length cs - max_retry_chunks) cs)
      × (length (trim cs).retry ≤ max_retry_chunks)
      × ((trim cs).dropped ≡ length cs - max_retry_chunks)
      × ((trim cs).effects ≡ map report_dropped (take (length cs - max_retry_chunks) cs))
trim_newest cs =
    let r = trimmed_lem cs in
    let n = length cs - max_retry_chunks in
    (r.0, omega (arith, length-drop n cs, ap length r.0), r.1, r.2)

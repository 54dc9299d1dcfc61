-- ===== src/Queue/Credit.antt =====
-- How many requests the drain loop of core/src/queue.ts may still send for what the queue holds.
pub mod Rounds
pub mod Steps
use watchup_v3_packages.Prelude.{
  ℕ, zero, suc, ◌+◌, ◌-◌, ◌*◌, ◌≤◌, ◌<◌, ◌≡◌, refl, ap, ◌∙◌, inl, inr, Bool, true, false, List, [],
  ◌∷◌, ◌++◌, arith, max, length, length-append, sum_of, sum_of-append, Bool-cases, list_cases,
  Option, none, some, keep_if, not, ltb, leb, ◌==◌, if◌then◌else◌, map, All, leb→lt,
}
use watchup_v3_packages.Types.{
  Kind, errors, traces, events, get, put, Chunk, SendResult, FlushResult,
}
use watchup_v3_packages.Chunker.{ChunkLimits}
use watchup_v3_packages.Chunker.Count.{items_in, total, length-build_chunks}
use watchup_v3_packages.Chunker.Each.{build_chunks-Each}
use watchup_v3_packages.Queue.State.{
  Queue, Drain, Env, Effect, sent, changed, settled, Out, ◌⨟◌, done, emit, or_default,
  max_retry_chunks,
}
use watchup_v3_packages.Queue.Bound.{shed, enforce_bound, report_overflow}
use watchup_v3_packages.Queue.Sound.{total-put}
use watchup_v3_packages.Queue.Drain.{
  arm_timer, schedule_from, flush_idle, earliest, schedule_retry, is_idle, send_due, cut, backoff,
  take_pending, start_send, finish, is_due, send_all, begin_round, FlushOptions, flush, trim,
  keep_for_retry, conclude, advance, settle_drain, settle_idle, another_round, settle, is_rejected,
  no_result,
}
use watchup_v3_packages.Queue.Flight.{
  requests, is_sent, report_overflow-requests, schedule_retry-IsStill, conclude-requests,
}

-- `n` times `m`.
unfoldable pub worth : ℕ → ℕ → ℕ
worth m n = m * n

pub worth-add : (m a b : ℕ) → worth m (a + b) ≡ worth m a + worth m b
unfolding worth
worth-add zero a b = omega arith
worth-add (suc m) a b = omega (arith, worth-add m a b)

pub worth_mono : (m a b : ℕ) → a ≤ b → worth m a ≤ worth m b
unfolding worth
worth_mono zero a b h = omega arith
worth_mono (suc m) a b h = omega (arith, worth_mono m a b h)

pub worth_one : (m : ℕ) → worth m 1 ≡ m
unfolding worth
worth_one zero = omega arith
worth_one (suc m) = omega (arith, worth_one m)

pub worth_nil : (m : ℕ) → worth m 0 ≡ 0
unfolding worth
worth_nil zero = omega arith
worth_nil (suc m) = omega (arith, worth_nil m)

-- The requests that a chunk may still make: while it waits it will be sent at least once.
abbrev pub credit : ℕ → Chunk → ℕ
credit m c = max 1 (m - c.attempts)

abbrev pub drain_credit : ℕ → Option Drain → ℕ
drain_credit m none = 0
drain_credit m (some d) = (m - d.in_flight.attempts) + sum_of (credit m) d.todo

unfoldable pub credits : ℕ → Queue → ℕ
credits m q = worth m (total q.pending) + sum_of (credit m) q.retry + drain_credit m q.drain

-- The credits without the drain loop's chunks.
abbrev pub free : ℕ → Queue → ℕ
free m q = credits m (record q { drain = none })

-- A part sends no more requests than it uses up credits, from `n` on.
abbrev pub Spends : ℕ → ℕ → Out → Type 0
Spends m n o = requests o.1 + credits m o.0 ≤ n

module _ (m : ℕ) where
  credits-shed : (k : Kind) (n : ℕ) (q : Queue) → credits m (shed k n q).queue ≤ credits m q
  unfolding shed credits
  credits-shed k zero q = omega arith
  credits-shed k (suc n) q = elim (list_cases (get k q.pending)) [
    | inl e ↦ rw (e, shed) (omega arith)
    | inr (item, rest, e) ↦
        rw (e, shed)
          (omega (
            arith,
            credits-shed k n _,
            worth_mono m (total (put k rest q.pending)) (total q.pending)
                (omega (arith, total-put k rest q.pending, ap length e)),
          ))
  ]

  pub credits-enforce_bound : (q : Queue) → credits m (enforce_bound q) ≤ credits m q
  unfolding enforce_bound
  credits-enforce_bound q =
      omega (arith, credits-shed errors _ _, credits-shed traces _ _, credits-shed events _ q)

  pub credits-report_overflow : (q : Queue) → free m (report_overflow q).0 ≡ free m q
  unfolding report_overflow credits
  credits-report_overflow q = ground arith

  credits-schedule_from :
      (env : Env) (cs : List Chunk) (q : Queue) → credits m (schedule_from env cs q).0 ≡ credits m q
  unfolding schedule_from arm_timer credits
  credits-schedule_from env [] q = refl
  credits-schedule_from env (c ∷ cs) q = ground arith

  pub credits-schedule_retry :
      (env : Env) (q : Queue) → credits m (schedule_retry env q).0 ≡ credits m q
  unfolding schedule_retry
  credits-schedule_retry env q = ground (arith, credits-schedule_from env q.retry q)

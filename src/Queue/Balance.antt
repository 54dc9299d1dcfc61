-- ===== src/Queue/Balance.antt =====
-- The books of core/src/queue.ts: how many items it holds, has delivered, and has dropped.
pub mod Rounds
pub mod Steps
use watchup_v3_packages.Prelude.{
  ℕ, zero, suc, ◌+◌, ◌-◌, ◌≤◌, ◌≡◌, refl, sym, ap, ◌∙◌, inl, inr, Bool, true, false, List, [], ◌∷◌,
  ◌++◌, arith, length, length-append, sum_of, sum_of-append, Bool-cases, Option-cases, list_cases,
  Option, none, some, keep_if, not, ltb, leb, ◌==◌, if◌then◌else◌, map,
}
use watchup_v3_packages.Types.{
  Kind, errors, traces, events, PerKind, get, put, PreparedItem, Chunk, SendResult, FlushResult,
}
use watchup_v3_packages.Chunker.Count.{items_in, total, build_chunks-total}
use watchup_v3_packages.Queue.State.{
  Queue, Drain, Env, Details, chunk_rejected, chunk_dropped, queue_overflow, Effect, diagnose, sent,
  changed, settled, returned, took, Out, ◌⨟◌, done, emit, or_default, pending_count,
  max_retry_chunks,
}
use watchup_v3_packages.Queue.Bound.{Shed, shed, enforce_bound, overflow_count, report_overflow}
use watchup_v3_packages.Queue.Drain.{
  arm_timer, schedule_from, flush_idle, earliest, schedule_retry, is_idle, send_due, cut, backoff,
  take_pending, start_send, finish, is_due, send_all, begin_round, FlushOptions, flush, trim,
  keep_for_retry, conclude, Concluded, advance, settle_drain, settle_idle, another_round, settle,
  trim_details, is_rejected, no_result,
}

abbrev pub draining_items : Option Drain → ℕ
draining_items none = 0
draining_items (some d) = items_in d.in_flight + sum_of items_in d.todo

-- The items that the queue holds, or has delivered, or has dropped and not reported yet.
unfoldable pub balance : Queue → ℕ
balance q =
    total q.pending
    + sum_of items_in q.retry
    + draining_items q.drain
    + q.delivered
    + overflow_count q

-- The items that leave the books with an effect: a reported loss, or chunks that a caller took.
abbrev pub left_by : Effect → ℕ
left_by (diagnose (chunk_rejected d)) = d.items
left_by (diagnose (chunk_dropped d)) = d.items
left_by (diagnose (queue_overflow n)) = n.errors + n.traces + n.events
left_by (took chunks) = sum_of items_in chunks
left_by other = 0

abbrev pub left : List Effect → ℕ
left = sum_of left_by

-- A part of a step keeps the books, from a balance of `n` on.
abbrev pub Keeps : ℕ → Out → Type 0
Keeps n o = balance o.0 + left o.1 ≡ n

pub Keeps-⨟ :
    (n : ℕ) (o : Out) (f : Queue → Out)
    → Keeps n o
    → ((q : Queue) → Keeps (balance q) (f q))
    → Keeps n (o ⨟ f)
Keeps-⨟ n o f h k = omega (arith, k o.0, sum_of-append left_by o.1 (f o.0).1)

balance-shed : (k : Kind) (n : ℕ) (q : Queue) → balance (shed k n q).queue ≡ balance q
unfolding shed balance
balance-shed k zero q = refl
balance-shed Kind.errors (suc n) q = elim (list_cases q.pending.errors) [
  | inl e ↦ rw (e, shed) (ground arith)
  | inr (item, rest, e) ↦ rw (e, shed) (omega (arith, balance-shed Kind.errors n _, ap length e))
]
balance-shed Kind.traces (suc n) q = elim (list_cases q.pending.traces) [
  | inl e ↦ rw (e, shed) (ground arith)
  | inr (item, rest, e) ↦ rw (e, shed) (omega (arith, balance-shed Kind.traces n _, ap length e))
]
balance-shed Kind.events (suc n) q = elim (list_cases q.pending.events) [
  | inl e ↦ rw (e, shed) (ground arith)
  | inr (item, rest, e) ↦ rw (e, shed) (omega (arith, balance-shed Kind.events n _, ap length e))
]

pub balance-enforce_bound : (q : Queue) → balance (enforce_bound q) ≡ balance q
unfolding enforce_bound
balance-enforce_bound q =
    balance-shed errors _ _ ∙ balance-shed traces _ _ ∙ balance-shed events _ q

pub report_overflow-Keeps : (q : Queue) → Keeps (balance q) (report_overflow q)
unfolding report_overflow balance
report_overflow-Keeps q = ground arith

arm_timer-Keeps : (env : Env) (next : ℕ) (q : Queue) → Keeps (balance q) (arm_timer env next q)
unfolding arm_timer balance
arm_timer-Keeps env next q = ground arith

schedule_from-Keeps :
    (env : Env) (cs : List Chunk) (q : Queue) → Keeps (balance q) (schedule_from env cs q)
unfolding schedule_from
schedule_from-Keeps env [] q = omega arith
schedule_from-Keeps env (c ∷ cs) q = ground (arith, arm_timer-Keeps env (earliest c cs) q)

schedule_retry-Keeps : (env : Env) (q : Queue) → Keeps (balance q) (schedule_retry env q)
unfolding schedule_retry
schedule_retry-Keeps env q = ground (arith, schedule_from-Keeps env q.retry q)

-- The books without the drain loop's chunks.
abbrev pub booked : Queue → ℕ
booked q = balance (record q { drain = none })

pub finish-Keeps :
    (env : Env) (result : FlushResult) (q : Queue) → Keeps (booked q) (finish env result q)
unfolding finish
finish-Keeps env result q =
    Keeps-⨟ _ (schedule_retry env (record q { drain = none })) (emit (settled result))
      (schedule_retry-Keeps env (record q { drain = none })) (λ q'. omega arith)

pub send_all-Keeps :
    (env : Env) (m : Option ℕ) (result : FlushResult) (cs : List Chunk) (q : Queue)
    → Keeps (booked q + sum_of items_in cs) (send_all env m result cs q)
unfolding send_all start_send balance
send_all-Keeps env m result [] q = omega (arith, finish-Keeps env result q)
send_all-Keeps env m result (c ∷ cs) q = omega arith

pub keep_if_sum :
    (p : Chunk → Bool) (cs : List Chunk)
    → sum_of items_in (keep_if p cs) + sum_of items_in (keep_if (λ c. not (p c)) cs)
      ≡ sum_of items_in cs
keep_if_sum p [] = refl
keep_if_sum p (c ∷ cs) = elim (Bool-cases (p c)) [
  | inl hit ↦ rw (hit, keep_if) (omega (arith, keep_if_sum p cs))
  | inr miss ↦ rw (miss, keep_if) (omega (arith, keep_if_sum p cs))
]

-- `cut` moves every pending item into the chunks.
pub cut-total :
    (env : Env) (m : ℕ) (q : Queue)
    → sum_of items_in (cut env m q) + total (take_pending q).pending ≡ total q.pending
unfolding cut take_pending
cut-total env m q = elim (Bool-cases (is_idle q)) [
  | inl idle ↦ rw idle (omega arith)
  | inr busy ↦ rw busy (omega (arith, build_chunks-total))
]

pub booked-take_pending :
    (q : Queue)
    → booked (take_pending q) + total q.pending ≡ booked q + total (take_pending q).pending
unfolding take_pending balance
booked-take_pending q = ground arith

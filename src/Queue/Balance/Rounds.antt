-- ===== src/Queue/Balance/Rounds.antt =====
-- The books of the drain loop of core/src/queue.ts.
use watchup_v3_packages.Prelude.{
  ℕ, ◌+◌, ◌≡◌, refl, ap, ◌∙◌, inl, inr, Bool, false, List, [], ◌∷◌, ◌++◌, arith, sum_of,
  sum_of-append, Bool-cases, Option, none, some, keep_if, not, leb,
}
use watchup_v3_packages.Types.{Chunk, SendResult, FlushResult}
use watchup_v3_packages.Chunker.Count.{items_in, total}
use watchup_v3_packages.Queue.State.{Queue, Drain, Env, Out, ◌⨟◌, or_default}
use watchup_v3_packages.Queue.Bound.{report_overflow}
use watchup_v3_packages.Queue.Drain.{
  flush_idle, send_due, cut, backoff, take_pending, start_send, is_due, begin_round, FlushOptions,
  flush, trim, keep_for_retry, conclude, advance, settle_drain, settle_idle, another_round, settle,
  is_rejected, no_result,
}
use watchup_v3_packages.Queue.Balance.{
  balance, booked, draining_items, left_by, left, Keeps, finish-Keeps, send_all-Keeps, keep_if_sum,
  cut-total, booked-take_pending,
}

Keeps-⨟_booked :
    (n : ℕ) (o : Out) (f : Queue → Out)
    → booked o.0 + left o.1 ≡ n
    → ((q : Queue) → Keeps (booked q) (f q))
    → Keeps n (o ⨟ f)
Keeps-⨟_booked n o f h k = omega (arith, k o.0, sum_of-append left_by o.1 (f o.0).1)

pub later_booked :
    (q : Queue) (cs : List Chunk)
    → booked (record q { retry = cs }) + sum_of items_in q.retry ≡ booked q + sum_of items_in cs
unfolding balance
later_booked q cs = omega arith

pub take_pending_same :
    (q : Queue) (cs : List Chunk)
    → total (take_pending (record q { retry = cs })).pending ≡ total (take_pending q).pending
unfolding take_pending
take_pending_same q cs = ground arith

flags_booked : (q : Queue) → booked (record q { rerun = false; force_next = false }) ≡ booked q
unfolding balance
flags_booked q = refl

send_due-Keeps :
    (env : Env) (force : Bool) (m : Option ℕ) (result : FlushResult) (q : Queue)
    → Keeps (booked q) (send_due env force m result q)
unfolding send_due
send_due-Keeps env force m result q =
    let due = keep_if (is_due force env.now) q.retry in
    let later = keep_if (λ c. not (is_due force env.now c)) q.retry in
    let q' = record q { retry = later } in
    let limit = or_default m q.options.max_bytes in
    omega (
      arith,
      send_all-Keeps env m result (due ++ cut env limit q) (take_pending q'),
      sum_of-append items_in due (cut env limit q),
      keep_if_sum (is_due force env.now) q.retry,
      cut-total env limit q,
      booked-take_pending q',
      later_booked q later,
      take_pending_same q later,
    )

booked-report_overflow :
    (q : Queue) → booked (report_overflow q).0 + left (report_overflow q).1 ≡ booked q
unfolding report_overflow balance
booked-report_overflow q = ground arith

begin_round-Keeps :
    (env : Env) (m : Option ℕ) (result : FlushResult) (q : Queue)
    → Keeps (booked q) (begin_round env m result q)
unfolding begin_round
begin_round-Keeps env m result q =
    let q' = record q { rerun = false; force_next = false } in
    Keeps-⨟_booked _ (report_overflow q') (send_due env q.force_next m result)
      (booked-report_overflow q' ∙ flags_booked q) (send_due-Keeps env q.force_next m result)

trim_total :
    (cs : List Chunk)
    → sum_of items_in (trim cs).retry + left (trim cs).effects ≡ sum_of items_in cs
unfolding trim
trim_total [] = refl
trim_total (c ∷ cs) = ground (arith, trim_total cs)

pub keep_for_retry-booked :
    (env : Env) (res : SendResult) (c : Chunk) (result : FlushResult) (q : Queue)
    → let r = keep_for_retry env res c result q in
      booked r.queue + left r.effects ≡ booked q + items_in c
unfolding keep_for_retry balance
keep_for_retry-booked env res c result q =
    let waiting = record c {
      next_attempt_at = env.now + backoff q.options env.random c.attempts res.retry_after_ms;
    } in
    omega
      (arith, trim_total (q.retry ++ waiting ∷ []), sum_of-append items_in q.retry (waiting ∷ []))

pub conclude-booked :
    (env : Env) (res : SendResult) (c : Chunk) (result : FlushResult) (q : Queue)
    → let r = conclude env res c result q in booked r.queue + left r.effects ≡ booked q + items_in c
unfolding conclude balance
conclude-booked env res c result q = elim (Bool-cases res.ok) [
  | inl ok ↦ rw ok (omega arith)
  | inr failed ↦ elim (Bool-cases (is_rejected res.status)) [
    | inl rejected ↦ rw (failed, rejected) (omega arith)
    | inr retryable ↦ elim (Bool-cases (leb q.options.max_attempts c.attempts)) [
      | inl spent ↦ simp (failed, retryable, spent) (omega arith)
      | inr more ↦ simp (failed, retryable, more) (keep_for_retry-booked env res c result q)
    ]
  ]
]

start_send-Keeps :
    (m : Option ℕ) (result : FlushResult) (c : Chunk) (todo : List Chunk) (q : Queue)
    → Keeps (booked q + sum_of items_in (c ∷ todo)) (start_send m result c todo q)
unfolding start_send balance
start_send-Keeps m result c todo q = omega arith

another_round-Keeps :
    (env : Env) (m : Option ℕ) (result : FlushResult) (q : Queue)
    → Keeps (booked q) (another_round env m result q)
unfolding another_round balance
another_round-Keeps env m result q = elim (Bool-cases q.rerun) [
  | inl again ↦ simp again (begin_round-Keeps env m result q)
  | inr last ↦ simp last (finish-Keeps env result q)
]

advance-Keeps :
    (env : Env) (m : Option ℕ) (result : FlushResult) (todo : List Chunk) (q : Queue)
    → Keeps (booked q + sum_of items_in todo) (advance env m result todo q)
unfolding advance
advance-Keeps env m result (c ∷ todo) q = start_send-Keeps m result c todo q
advance-Keeps env m result [] q = omega (arith, another_round-Keeps env m result q)

settle_drain-Keeps :
    (env : Env) (res : SendResult) (d : Drain) (q : Queue)
    → Keeps (booked q + draining_items (some d)) (settle_drain env res d q)
unfolding settle_drain
settle_drain-Keeps env res d q =
    let r = conclude env res d.in_flight d.result q in
    omega (
      arith,
      conclude-booked env res d.in_flight d.result q,
      advance-Keeps env d.max_bytes r.result d.todo r.queue,
      sum_of-append left_by r.effects (advance env d.max_bytes r.result d.todo r.queue).1,
    )

pub balance_split : (q : Queue) → balance q ≡ booked q + draining_items q.drain
unfolding balance
balance_split q = omega arith

settle_idle-Keeps :
    (env : Env) (res : SendResult) (o : Option Drain) (q : Queue)
    → q.drain ≡ o
    → Keeps (balance q) (settle_idle env res o q)
unfolding settle_idle
settle_idle-Keeps env res none q h = omega arith
settle_idle-Keeps env res (some d) q h =
    omega (arith, settle_drain-Keeps env res d q, balance_split q, ap draining_items h)

pub settle-Keeps : (env : Env) (res : SendResult) (q : Queue) → Keeps (balance q) (settle env res q)
unfolding settle
settle-Keeps env res q = settle_idle-Keeps env res q.drain q refl

flush_idle-Keeps :
    (env : Env) (opts : FlushOptions) (o : Option Drain) (q : Queue)
    → q.drain ≡ o
    → Keeps (balance q) (flush_idle env opts o q)
unfolding flush_idle balance
flush_idle-Keeps env opts (some d) q h = omega arith
flush_idle-Keeps env opts none q h = omega (
  arith,
  begin_round-Keeps env opts.max_bytes no_result (record q { force_next = opts.force }),
  ap draining_items h,
)

pub flush-Keeps :
    (env : Env) (opts : FlushOptions) (q : Queue) → Keeps (balance q) (flush env opts q)
unfolding flush
flush-Keeps env opts q = ground (arith, flush_idle-Keeps env opts q.drain q refl)

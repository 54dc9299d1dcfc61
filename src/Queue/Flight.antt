-- ===== src/Queue/Flight.antt =====
-- core/src/queue.ts sends one request at a time.
use watchup_v3_packages.Prelude.{
  ℕ, zero, suc, ◌+◌, ◌≤◌, ◌≡◌, refl, ap, ◌∙◌, inl, inr, true, false, List, [], ◌∷◌, ◌++◌, arith,
  Bool-cases, list_cases, Option, none, some, ◌==◌, sum_of, sum_of-append,
}
use watchup_v3_packages.Json.{Json, object}
use watchup_v3_packages.Types.{Kind, errors, traces, events, get, Chunk, SendResult, FlushResult}
use watchup_v3_packages.Truncate.{FitResult}
use watchup_v3_packages.Queue.State.{
  Options, Queue, new_queue, Drain, Env, Effect, sent, settled, changed, returned, Out,
}
use watchup_v3_packages.Queue.Bound.{shed, enforce_bound, report_overflow}
use watchup_v3_packages.Queue.Drain.{
  arm_timer, schedule_from, schedule_retry, backoff, take_pending, start_send, finish, send_all,
  send_due, begin_round, FlushOptions, flush_idle, flush, trim, keep_for_retry, conclude,
  another_round, advance, settle_drain, settle_idle, settle, no_result,
}
use watchup_v3_packages.Queue.Calls.{
  plain_flush, report_fit, push_pending, auto_flush, wants_flush, enqueue_fit, enqueue, start, stop,
  pause, resume, retry_timer_fires, take_all, merge_snapshot, restore_kind, restore, Event,
  enqueued, flushed, answered, timed_out, QueueSnapshot, started, was_stopped, was_paused, resumed,
  taken, was_restored, step, run,
}

abbrev pub is_sent : Effect → ℕ
is_sent (sent c) = 1
is_sent other = 0

-- The requests among the effects.
abbrev pub requests : List Effect → ℕ
requests = sum_of is_sent

-- The requests in flight.
abbrev pub in_flight : Option Drain → ℕ
in_flight none = 0
in_flight (some d) = 1

-- A part that sends nothing and leaves the drain loop alone.
abbrev pub IsStill : Queue → Out → Type 0
IsStill q o = (requests o.1 ≡ 0) × (o.0.drain ≡ q.drain)

pub report_overflow-requests : (q : Queue) → requests (report_overflow q).1 ≡ 0
unfolding report_overflow
report_overflow-requests q = ground arith

schedule_from-IsStill :
    (env : Env) (cs : List Chunk) (q : Queue) → IsStill q (schedule_from env cs q)
unfolding schedule_from arm_timer
schedule_from-IsStill env [] q = (refl, refl)
schedule_from-IsStill env (c ∷ cs) q = ground arith

pub schedule_retry-IsStill : (env : Env) (q : Queue) → IsStill q (schedule_retry env q)
unfolding schedule_retry
schedule_retry-IsStill env q = ground (arith, schedule_from-IsStill env q.retry q)

-- A part that begins with no request in flight.
abbrev Begins : Out → Type 0
Begins o = requests o.1 ≡ in_flight o.0.drain

finish-Begins : (env : Env) (result : FlushResult) (q : Queue) → Begins (finish env result q)
unfolding finish
finish-Begins env result q =
    let s = schedule_retry-IsStill env (record q { drain = none }) in
    omega (
      arith,
      s.0,
      ap in_flight s.1,
      sum_of-append is_sent (schedule_retry env (record q { drain = none })).1
          (settled result ∷ []),
    )

send_all-Begins :
    (env : Env) (m : Option ℕ) (result : FlushResult) (cs : List Chunk) (q : Queue)
    → Begins (send_all env m result cs q)
unfolding send_all start_send
send_all-Begins env m result [] q = finish-Begins env result q
send_all-Begins env m result (c ∷ cs) q = refl

begin_round-Begins :
    (env : Env) (m : Option ℕ) (result : FlushResult) (q : Queue)
    → Begins (begin_round env m result q)
unfolding begin_round send_due
begin_round-Begins env m result q =
    let q' = record q { rerun = false; force_next = false } in
    omega (
      arith,
      report_overflow-requests q',
      send_all-Begins env m result _ _,
      sum_of-append is_sent (report_overflow q').1
          (send_due env q.force_next m result (report_overflow q').0).1,
    )

another_round-Begins :
    (env : Env) (m : Option ℕ) (result : FlushResult) (q : Queue)
    → Begins (another_round env m result q)
unfolding another_round
another_round-Begins env m result q = elim (Bool-cases q.rerun) [
  | inl again ↦ simp again (begin_round-Begins env m result q)
  | inr last ↦ simp last (finish-Begins env result q)
]

advance-Begins :
    (env : Env) (m : Option ℕ) (result : FlushResult) (todo : List Chunk) (q : Queue)
    → Begins (advance env m result todo q)
unfolding advance start_send
advance-Begins env m result (c ∷ todo) q = refl
advance-Begins env m result [] q = omega (arith, another_round-Begins env m result q)

trim-requests : (cs : List Chunk) → requests (trim cs).effects ≡ 0
unfolding trim
trim-requests [] = refl
trim-requests (c ∷ cs) = ground (arith, trim-requests cs)

pub conclude-requests :
    (env : Env) (res : SendResult) (c : Chunk) (result : FlushResult) (q : Queue)
    → requests (conclude env res c result q).effects ≡ 0
unfolding conclude keep_for_retry
conclude-requests env res c result q =
    let at = env.now + backoff q.options env.random c.attempts res.retry_after_ms in
    ground (arith, trim-requests (q.retry ++ record c { next_attempt_at = at } ∷ []))

-- Requests sent and in flight before, against those in flight after and the answers.
abbrev Paces : ℕ → Queue → Out → Type 0
Paces n q o = requests o.1 + in_flight q.drain ≤ in_flight o.0.drain + n

settle_idle-Paces :
    (env : Env) (res : SendResult) (d : Option Drain) (q : Queue)
    → q.drain ≡ d
    → Paces 1 q (settle_idle env res d q)
unfolding settle_idle settle_drain
settle_idle-Paces env res none q e = omega (arith, ap in_flight e)
settle_idle-Paces env res (some d) q e =
    let r = conclude env res d.in_flight d.result q in
    omega (
      arith,
      ap in_flight e,
      conclude-requests env res d.in_flight d.result q,
      advance-Begins env d.max_bytes r.result d.todo r.queue,
      sum_of-append is_sent r.effects (advance env d.max_bytes r.result d.todo r.queue).1,
    )

flush_idle-Paces :
    (env : Env) (opts : FlushOptions) (d : Option Drain) (q : Queue)
    → q.drain ≡ d
    → Paces 0 q (flush_idle env opts d q)
unfolding flush_idle
flush_idle-Paces env opts none q e = omega (
  arith,
  ap in_flight e,
  begin_round-Begins env opts.max_bytes no_result (record q { force_next = opts.force }),
)
flush_idle-Paces env opts (some d) q e = omega arith

flush-Paces : (env : Env) (opts : FlushOptions) (q : Queue) → Paces 0 q (flush env opts q)
unfolding flush
flush-Paces env opts q = elim (Bool-cases q.paused) [
  | inl paused ↦ simp paused (omega arith)
  | inr open_queue ↦ simp open_queue (flush_idle-Paces env opts q.drain q refl)
]

drain-shed : (k : Kind) (n : ℕ) (q : Queue) → (shed k n q).queue.drain ≡ q.drain
unfolding shed
drain-shed k zero q = refl
drain-shed k (suc n) q = elim (list_cases (get k q.pending)) [
  | inl e ↦ rw (e, shed) refl
  | inr (item, rest, e) ↦ rw (e, shed) (drain-shed k n _)
]

pub drain-enforce_bound : (q : Queue) → (enforce_bound q).drain ≡ q.drain
unfolding enforce_bound
drain-enforce_bound q = drain-shed errors _ _ ∙ drain-shed traces _ _ ∙ drain-shed events _ q

pub report_fit-IsStill : (k : Kind) (fit : FitResult) (q : Queue) → IsStill q (report_fit k fit q)
report_fit-IsStill k fit q = ground arith

auto_flush-Paces : (env : Env) (q : Queue) → Paces 0 q (auto_flush env q)
unfolding auto_flush
auto_flush-Paces env q = elim (Bool-cases (wants_flush q)) [
  | inl due ↦ simp due (flush-Paces env plain_flush q)
  | inr early ↦ simp early (omega arith)
]

enqueue_fit-Paces :
    (env : Env) (k : Kind) (fit : FitResult) (q : Queue) → Paces 0 q (enqueue_fit env k fit q)
unfolding enqueue_fit push_pending
enqueue_fit-Paces env k fit q =
    let reported = report_fit k fit q in
    let pushed = enforce_bound (push_pending k fit reported.0) in
    let s = report_fit-IsStill k fit q in
    omega (
      arith,
      s.0,
      ap in_flight s.1,
      ap in_flight (drain-enforce_bound (push_pending k fit reported.0)),
      auto_flush-Paces env pushed,
      sum_of-append is_sent reported.1 (changed ∷ []),
      sum_of-append is_sent (reported.1 ++ changed ∷ []) (auto_flush env pushed).1,
      sum_of-append is_sent ((reported.1 ++ changed ∷ []) ++ (auto_flush env pushed).1)
          (returned true ∷ []),
    )

enqueue-Paces :
    (env : Env) (k : Kind) (item : Option Json) (q : Queue) → Paces 0 q (enqueue env k item q)
unfolding enqueue
enqueue-Paces env k (some (object fs)) q = enqueue_fit-Paces env k _ q
enqueue-Paces env k item q = omega arith

pub drain-restore :
    (env : Env) (s : Option QueueSnapshot) (q : Queue) → (restore env s q).drain ≡ q.drain
unfolding restore merge_snapshot restore_kind
drain-restore env none q = refl
drain-restore env (some s) q = elim (Bool-cases (s.version == 1)) [
  | inl known ↦ simp known (drain-enforce_bound (merge_snapshot env.now s q))
  | inr other ↦ simp other
]

abbrev pub is_answer : Event → ℕ
is_answer (answered res) = 1
is_answer other = 0

step-Paces : (env : Env) (e : Event) (q : Queue) → Paces (is_answer e) q (step env e q)
unfolding step start stop pause resume retry_timer_fires settle take_all take_pending
step-Paces env (enqueued k item) q = enqueue-Paces env k item q
step-Paces env (flushed opts) q = flush-Paces env opts q
step-Paces env (answered res) q = settle_idle-Paces env res q.drain q refl
step-Paces env timed_out q = flush-Paces env plain_flush _
step-Paces env (started ms) q = ground arith
step-Paces env was_stopped q = ground arith
step-Paces env was_paused q = omega arith
step-Paces env resumed q = flush-Paces env _ _
step-Paces env (taken m) q = ground arith
step-Paces env (was_restored s) q = omega (arith, ap in_flight (drain-restore env s q))

run-Paces :
    (es : List (Env × Event)) (q : Queue) → Paces (sum_of (λ e. is_answer e.1) es) q (run es q)
unfolding run
run-Paces [] q = omega arith
run-Paces ((env, e) ∷ es) q = omega (
  arith,
  step-Paces env e q,
  run-Paces es (step env e q).0,
  sum_of-append is_sent (step env e q).1 (run es (step env e q).0).1,
)

in_flight_bound : (d : Option Drain) → in_flight d ≤ 1
in_flight_bound none = omega arith
in_flight_bound (some d) = omega arith

-- In any history of a new queue the requests sent are at most one more than the answers, so at most
-- one request is waiting for its answer at any time.
pub run-requests :
    (options : Options) (es : List (Env × Event))
    → requests (run es (new_queue options)).1 ≤ 1 + sum_of (λ e. is_answer e.1) es
unfolding new_queue
run-requests options es =
    omega (
      arith,
      run-Paces es (new_queue options),
      in_flight_bound (run es (new_queue options)).0.drain,
    )

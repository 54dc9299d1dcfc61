-- ===== src/Queue/Balance/Steps.antt =====
-- The books of every call of core/src/queue.ts, and of its histories.
use watchup_v3_packages.Prelude.{
  ℕ, suc, ◌+◌, ◌≡◌, refl, ap, ◌∙◌, inl, inr, true, false, List, [], ◌∷◌, ◌++◌, arith, length,
  length-append, sum_of, sum_of-append, Bool-cases, Option, none, some, ◌==◌, if◌then◌else◌, map,
}
use watchup_v3_packages.Types.{Kind, errors, traces, events, Chunk}
use watchup_v3_packages.Chunker.Count.{items_in, total}
use watchup_v3_packages.Queue.State.{Queue, Env, changed, returned, Out, ◌⨟◌, emit}
use watchup_v3_packages.Queue.Bound.{enforce_bound}
use watchup_v3_packages.Queue.Drain.{cut, take_pending}
use watchup_v3_packages.Queue.Balance.{
  balance, left_by, Keeps, Keeps-⨟, balance-enforce_bound, cut-total,
}
use watchup_v3_packages.Queue.Balance.Rounds.{settle-Keeps, flush-Keeps}
use watchup_v3_packages.Json.{Json, object}
use watchup_v3_packages.Truncate.{FitResult, fit_item}
use watchup_v3_packages.Utf8.{Str}
use watchup_v3_packages.Queue.Calls.{
  report_fit, push_pending, auto_flush, enqueue_fit, enqueue, start, stop, pause, resume,
  retry_timer_fires, take_all, QueueSnapshot, restored_items, restore_kind, due_now, merge_snapshot,
  restore, Event, enqueued, flushed, answered, timed_out, started, was_stopped, was_paused, resumed,
  taken, was_restored, step, run, plain_flush, item_budget,
}

report_fit-Keeps : (k : Kind) (fit : FitResult) (q : Queue) → Keeps (balance q) (report_fit k fit q)
unfolding balance
report_fit-Keeps k fit q = ground arith

balance-push_pending :
    (k : Kind) (fit : FitResult) (q : Queue) → balance (push_pending k fit q) ≡ balance q + 1
unfolding push_pending balance
balance-push_pending Kind.errors fit q = omega (arith, length-append q.pending.errors)
balance-push_pending Kind.traces fit q = omega (arith, length-append q.pending.traces)
balance-push_pending Kind.events fit q = omega (arith, length-append q.pending.events)

pushed-Keeps :
    (k : Kind) (fit : FitResult) (q : Queue)
    → Keeps (balance q + 1) (emit changed (enforce_bound (push_pending k fit q)))
pushed-Keeps k fit q =
    omega (arith, balance-enforce_bound (push_pending k fit q), balance-push_pending k fit q)

-- The items that an event brings.
abbrev pub brought : Event → ℕ
brought (enqueued k (some (object fs))) = 1
brought (was_restored (some s)) =
    if s.version == 1
    then length s.pending.errors
      + length s.pending.traces
      + length s.pending.events
      + sum_of items_in s.retry
    else 0
brought other = 0

auto_flush-Keeps : (env : Env) (q : Queue) → Keeps (balance q) (auto_flush env q)
unfolding auto_flush
auto_flush-Keeps env q = ground (arith, flush-Keeps env plain_flush q)

Keeps-⨟_gain :
    (n gain : ℕ) (o : Out) (f : Queue → Out)
    → Keeps n o
    → ((q : Queue) → Keeps (balance q + gain) (f q))
    → Keeps (n + gain) (o ⨟ f)
Keeps-⨟_gain n gain o f h k = omega (arith, k o.0, sum_of-append left_by o.1 (f o.0).1)

enqueue_fit-Keeps :
    (env : Env) (k : Kind) (fit : FitResult) (q : Queue)
    → Keeps (balance q + 1) (enqueue_fit env k fit q)
unfolding enqueue_fit
enqueue_fit-Keeps env k fit q =
    Keeps-⨟ _ _ (emit (returned true))
      (Keeps-⨟ _ _ (auto_flush env)
        (Keeps-⨟_gain _ 1 (report_fit k fit q)
          (λ q'. emit changed (enforce_bound (push_pending k fit q'))) (report_fit-Keeps k fit q)
          (pushed-Keeps k fit))
        (auto_flush-Keeps env))
      (λ q'. omega arith)

enqueue-Keeps :
    (env : Env) (k : Kind) (item : Option Json) (q : Queue)
    → Keeps (balance q + brought (enqueued k item)) (enqueue env k item q)
unfolding enqueue
enqueue-Keeps env k (some (object fs)) q =
    enqueue_fit-Keeps env k (fit_item fs (item_budget env q)) q
enqueue-Keeps env k item q = omega arith

start-Keeps : (ms : ℕ) (q : Queue) → Keeps (balance q) (start ms q)
unfolding start balance
start-Keeps ms q = ground arith

stop-Keeps : (q : Queue) → Keeps (balance q) (stop q)
unfolding stop balance
stop-Keeps q = ground arith

pause-Keeps : (q : Queue) → Keeps (balance q) (pause q)
unfolding pause balance
pause-Keeps q = omega arith

resume-Keeps : (env : Env) (q : Queue) → Keeps (balance q) (resume env q)
unfolding resume balance
resume-Keeps env q = flush-Keeps env _ (record q { paused = false })

retry_timer_fires-Keeps : (env : Env) (q : Queue) → Keeps (balance q) (retry_timer_fires env q)
unfolding retry_timer_fires balance
retry_timer_fires-Keeps env q =
    flush-Keeps env plain_flush (record q { retry_timer = false; retry_timer_at = 0 })

emptied_balance :
    (q : Queue)
    → balance (take_pending (record q { retry = []; retry_timer = false }))
        + total q.pending
        + sum_of items_in q.retry
      ≡ balance q + total (take_pending q).pending
unfolding take_pending balance
emptied_balance q = ground arith

take_all-Keeps : (env : Env) (m : ℕ) (q : Queue) → Keeps (balance q) (take_all env m q)
unfolding take_all
take_all-Keeps env m q =
    let total_cut = cut-total env m q in
    let apart = sum_of-append items_in q.retry (cut env m q) in
    elim (Bool-cases q.retry_timer) [
      | inl armed ↦ simp armed (omega (arith, total_cut, apart, emptied_balance q))
      | inr idle ↦ simp idle (omega (arith, total_cut, apart, emptied_balance q))
    ]

length-restored_items :
    (k : Kind) (jsons : List Str) → length (restored_items k jsons) ≡ length jsons
length-restored_items k [] = refl
length-restored_items k (s ∷ ss) = ap suc (length-restored_items k ss)

due_now_total :
    (now : ℕ) (cs : List Chunk) → sum_of items_in (map (due_now now) cs) ≡ sum_of items_in cs
due_now_total now [] = refl
due_now_total now (c ∷ cs) = omega (arith, due_now_total now cs)

retry_balance :
    (q : Queue) (cs : List Chunk)
    → balance (record q { retry = q.retry ++ cs }) ≡ balance q + sum_of items_in cs
unfolding balance
retry_balance q cs = omega (arith, sum_of-append items_in q.retry cs)

balance-restore_kind :
    (k : Kind) (jsons : List Str) (q : Queue)
    → balance (restore_kind k jsons q) ≡ balance q + length jsons
unfolding restore_kind balance
balance-restore_kind Kind.errors jsons q = omega (
  arith,
  length-append (restored_items errors jsons) q.pending.errors,
  length-restored_items errors jsons,
)
balance-restore_kind Kind.traces jsons q = omega (
  arith,
  length-append (restored_items traces jsons) q.pending.traces,
  length-restored_items traces jsons,
)
balance-restore_kind Kind.events jsons q = omega (
  arith,
  length-append (restored_items events jsons) q.pending.events,
  length-restored_items events jsons,
)

balance-merge_snapshot :
    (now : ℕ) (s : QueueSnapshot) (q : Queue)
    → balance (merge_snapshot now s q)
      ≡ balance q
        + (length s.pending.errors
            + length s.pending.traces
            + length s.pending.events
            + sum_of items_in s.retry)
unfolding merge_snapshot
balance-merge_snapshot now s q =
    let with_errors = restore_kind errors s.pending.errors q in
    let with_traces = restore_kind traces s.pending.traces with_errors in
    let with_events = restore_kind events s.pending.events with_traces in
    omega (
      arith,
      balance-restore_kind errors s.pending.errors q,
      balance-restore_kind traces s.pending.traces with_errors,
      balance-restore_kind events s.pending.events with_traces,
      retry_balance with_events (map (due_now now) s.retry),
      due_now_total now s.retry,
    )

restore-Keeps :
    (env : Env) (s : Option QueueSnapshot) (q : Queue)
    → balance (restore env s q) ≡ balance q + brought (was_restored s)
unfolding restore
restore-Keeps env none q = omega arith
restore-Keeps env (some s) q = elim (Bool-cases (s.version == 1)) [
  | inl known ↦
      rw known
        (balance-enforce_bound (merge_snapshot env.now s q) ∙ balance-merge_snapshot env.now s q)
  | inr other ↦ rw other (omega arith)
]

step-Keeps : (env : Env) (e : Event) (q : Queue) → Keeps (balance q + brought e) (step env e q)
unfolding step
step-Keeps env (enqueued k item) q = enqueue-Keeps env k item q
step-Keeps env (flushed opts) q = omega (arith, flush-Keeps env opts q)
step-Keeps env (answered res) q = omega (arith, settle-Keeps env res q)
step-Keeps env timed_out q = omega (arith, retry_timer_fires-Keeps env q)
step-Keeps env (started ms) q = omega (arith, start-Keeps ms q)
step-Keeps env was_stopped q = omega (arith, stop-Keeps q)
step-Keeps env was_paused q = omega (arith, pause-Keeps q)
step-Keeps env resumed q = omega (arith, resume-Keeps env q)
step-Keeps env (taken m) q = omega (arith, take_all-Keeps env m q)
step-Keeps env (was_restored s) q = omega (arith, restore-Keeps env s q)

abbrev pub brought_by : List (Env × Event) → ℕ
brought_by = sum_of λ e. brought e.1

-- After any history of calls, timers and answers the number of items adds up: those that are
-- pending, waiting for a retry, in the drain loop, delivered, or dropped by the bound and not
-- reported yet, together with those that the emitted drop, rejection and overflow diagnostics and
-- the chunks that `takeAll` gave out count, are as many as those counted before and those that
-- `enqueue` accepted and `restore` brought in.
pub run-Keeps : (es : List (Env × Event)) (q : Queue) → Keeps (balance q + brought_by es) (run es q)
unfolding run
run-Keeps [] q = omega arith
run-Keeps ((env, e) ∷ es) q = omega (
  arith,
  step-Keeps env e q,
  run-Keeps es (step env e q).0,
  sum_of-append left_by (step env e q).1 (run es (step env e q).0).1,
)

-- ===== src/Queue/Credit/Steps.antt =====
-- How many requests a whole history of core/src/queue.ts sends for what came in.
use watchup_v3_packages.Prelude.{
  ℕ, suc, ◌+◌, ◌*◌, ◌≤◌, ◌≡◌, refl, ap, inl, inr, true, List, [], ◌∷◌, ◌++◌, arith, max, length,
  length-append, sum_of, sum_of-append, Bool-cases, Option, none, some, ◌==◌, if◌then◌else◌, map,
}
use watchup_v3_packages.Json.{Json, object}
use watchup_v3_packages.Utf8.{Str}
use watchup_v3_packages.Types.{Kind, errors, traces, events, get, put, Chunk}
use watchup_v3_packages.Chunker.Count.{total}
use watchup_v3_packages.Truncate.{FitResult}
use watchup_v3_packages.Queue.State.{Options, Queue, new_queue, Env, changed, returned}
use watchup_v3_packages.Queue.Bound.{enforce_bound}
use watchup_v3_packages.Queue.Drain.{take_pending, settle}
use watchup_v3_packages.Queue.Calls.{
  report_fit, push_pending, auto_flush, wants_flush, enqueue_fit, enqueue, start, stop, pause,
  resume, retry_timer_fires, take_all, QueueSnapshot, restored_items, restore_kind, due_now,
  merge_snapshot, restore, Event, enqueued, flushed, answered, timed_out, started, was_stopped,
  was_paused, resumed, taken, was_restored, step, run, plain_flush,
}
use watchup_v3_packages.Queue.Sound.{IsSound, total-put}
use watchup_v3_packages.Queue.Sound.Steps.{step-IsSound, new_queue-IsSound}
use watchup_v3_packages.Queue.Flight.{requests, is_sent, report_fit-IsStill}
use watchup_v3_packages.Queue.Credit.Rounds.{settle_idle-Spends, flush-Spends}
use watchup_v3_packages.Queue.Credit.{
  worth, worth-add, worth_nil, credit, credits, Spends, credits-enforce_bound,
}

-- What an event brings to be sent: an item that is accepted, or the items and the chunks of a
-- snapshot.
abbrev pub gained : Event → ℕ
gained (enqueued k (some (object fs))) = 1
gained (was_restored (some s)) =
    if s.version == 1
    then length s.pending.errors
      + length s.pending.traces
      + length s.pending.events
      + length s.retry
    else 0
gained other = 0

abbrev pub gained_by : List (Env × Event) → ℕ
gained_by = sum_of λ e. gained e.1

module _ (m : ℕ) (one : 1 ≤ m) where
  credits-report_fit :
      (k : Kind) (fit : FitResult) (q : Queue) → credits m (report_fit k fit q).0 ≡ credits m q
  unfolding credits
  credits-report_fit k fit q = ground arith

  credits-push_pending :
      (k : Kind) (fit : FitResult) (q : Queue)
      → credits m (push_pending k fit q) ≡ credits m q + worth m 1
  unfolding push_pending credits
  credits-push_pending k fit q =
      let items = get k q.pending in
      let longer : total (
            put k (items ++ record { kind = k; json = fit.json; bytes = fit.bytes } ∷ []) q.pending)
          ≡ total q.pending + 1 =
        omega (
          arith,
          total-put k (items ++ record { kind = k; json = fit.json; bytes = fit.bytes } ∷ [])
              q.pending,
          length-append items (record { kind = k; json = fit.json; bytes = fit.bytes } ∷ []),
        ) in
      omega (arith, ap (worth m) longer, worth-add m (total q.pending) 1)

  auto_flush-Spends : (env : Env) (q : Queue) → Spends m (credits m q) (auto_flush env q)
  unfolding auto_flush
  auto_flush-Spends env q = elim (Bool-cases (wants_flush q)) [
    | inl due ↦ simp due (flush-Spends m env plain_flush q one)
    | inr early ↦ simp early (omega arith)
  ]

  enqueue_fit-Spends :
      (env : Env) (k : Kind) (fit : FitResult) (q : Queue)
      → Spends m (credits m q + worth m 1) (enqueue_fit env k fit q)
  unfolding enqueue_fit
  enqueue_fit-Spends env k fit q =
      let reported = report_fit k fit q in
      let pushed = push_pending k fit reported.0 in
      let bounded = enforce_bound pushed in
      omega (
        arith,
        (report_fit-IsStill k fit q).0,
        credits-report_fit k fit q,
        credits-push_pending k fit reported.0,
        credits-enforce_bound m pushed,
        auto_flush-Spends env bounded,
        sum_of-append is_sent reported.1 (changed ∷ []),
        sum_of-append is_sent (reported.1 ++ changed ∷ []) (auto_flush env bounded).1,
        sum_of-append is_sent ((reported.1 ++ changed ∷ []) ++ (auto_flush env bounded).1)
            (returned true ∷ []),
      )

  enqueue-Spends :
      (env : Env) (k : Kind) (item : Option Json) (q : Queue)
      → Spends m (credits m q + worth m (gained (enqueued k item))) (enqueue env k item q)
  unfolding enqueue
  enqueue-Spends env k (some (object fs)) q = enqueue_fit-Spends env k _ q
  enqueue-Spends env k item q = omega arith

  take_all-Spends :
      (env : Env) (limit : ℕ) (q : Queue) → Spends m (credits m q) (take_all env limit q)
  unfolding take_all take_pending credits
  take_all-Spends env limit q = ground (arith, worth_nil m)

  length-restored_items :
      (k : Kind) (jsons : List Str) → length (restored_items k jsons) ≡ length jsons
  length-restored_items k [] = refl
  length-restored_items k (s ∷ ss) = ap suc (length-restored_items k ss)

  credits-restore_kind :
      (k : Kind) (jsons : List Str) (q : Queue)
      → credits m (restore_kind k jsons q) ≡ credits m q + worth m (length jsons)
  unfolding restore_kind credits
  credits-restore_kind k jsons q =
      let items = get k q.pending in
      let longer : total (put k (restored_items k jsons ++ items) q.pending)
          ≡ total q.pending + length jsons =
        omega (
          arith,
          total-put k (restored_items k jsons ++ items) q.pending,
          length-append (restored_items k jsons) items,
          length-restored_items k jsons,
        ) in
      omega (arith, ap (worth m) longer, worth-add m (total q.pending) (length jsons))

  due_now-credit :
      (now : ℕ) (cs : List Chunk) → sum_of (credit m) (map (due_now now) cs) ≤ worth m (length cs)
  unfolding worth
  due_now-credit now [] = omega arith
  due_now-credit now (c ∷ cs) = omega (arith, due_now-credit now cs, worth-add m 1 (length cs), one)

  waiting_credits :
      (q : Queue) (cs : List Chunk)
      → credits m (record q { retry = q.retry ++ cs }) ≡ credits m q + sum_of (credit m) cs
  unfolding credits
  waiting_credits q cs = omega (arith, sum_of-append (credit m) q.retry cs)

  credits-merge_snapshot :
      (now : ℕ) (s : QueueSnapshot) (q : Queue)
      → credits m (merge_snapshot now s q)
        ≤ credits m q
          + worth m (
              length s.pending.errors
              + length s.pending.traces
              + length s.pending.events
              + length s.retry)
  unfolding merge_snapshot
  credits-merge_snapshot now s q =
      let a = length s.pending.errors in
      let b = length s.pending.traces in
      let c = length s.pending.events in
      let with_errors = restore_kind errors s.pending.errors q in
      let with_traces = restore_kind traces s.pending.traces with_errors in
      let with_events = restore_kind events s.pending.events with_traces in
      omega (
        arith,
        credits-restore_kind errors s.pending.errors q,
        credits-restore_kind traces s.pending.traces with_errors,
        credits-restore_kind events s.pending.events with_traces,
        waiting_credits with_events (map (due_now now) s.retry),
        due_now-credit now s.retry,
        worth-add m a b,
        worth-add m (a + b) c,
        worth-add m (a + b + c) (length s.retry),
      )

  credits-restore :
      (env : Env) (s : Option QueueSnapshot) (q : Queue)
      → credits m (restore env s q) ≤ credits m q + worth m (gained (was_restored s))
  unfolding restore
  credits-restore env none q = omega arith
  credits-restore env (some s) q = elim (Bool-cases (s.version == 1)) [
    | inl known ↦ rw known (
        omega (
          arith,
          credits-enforce_bound m (merge_snapshot env.now s q),
          credits-merge_snapshot env.now s q,
        ))
    | inr other ↦ rw other (omega arith)
  ]

  step-Spends :
      (env : Env) (e : Event) (q : Queue)
      → q.options.max_attempts ≤ m
      → Spends m (credits m q + worth m (gained e)) (step env e q)
  unfolding step start stop pause resume retry_timer_fires settle credits
  step-Spends env (enqueued k item) q h = enqueue-Spends env k item q
  step-Spends env (flushed opts) q h = omega (arith, flush-Spends m env opts q one)
  step-Spends env (answered res) q h =
      omega (arith, settle_idle-Spends m env res q.drain q one h refl)
  step-Spends env timed_out q h = omega (arith, flush-Spends m env plain_flush _ one)
  step-Spends env (started ms) q h = ground arith
  step-Spends env was_stopped q h = ground arith
  step-Spends env was_paused q h = omega arith
  step-Spends env resumed q h = omega (arith, flush-Spends m env _ _ one)
  step-Spends env (taken limit) q h = omega (arith, take_all-Spends env limit q)
  step-Spends env (was_restored s) q h = omega (arith, credits-restore env s q)

  run-Spends :
      {options : Options} (es : List (Env × Event)) (q : Queue)
      → options.max_attempts ≤ m
      → IsSound options q
      → Spends m (credits m q + worth m (gained_by es)) (run es q)
  unfolding run
  run-Spends [] q h v = omega arith
  run-Spends {options} ((env, e) ∷ es) q h v =
      let attempts = ap (λ (o : Options). o.max_attempts) v.fixed in
      omega (
        arith,
        step-Spends env e q (omega (arith, h, attempts)),
        run-Spends {options = options} es (step env e q).0 h (step-IsSound env e q v),
        worth-add m (gained e) (gained_by es),
        sum_of-append is_sent (step env e q).1 (run es (step env e q).0).1,
      )

-- A new queue has no credits, so that all of them come with events.
pub run-requests_bound :
    (options : Options) (es : List (Env × Event))
    → requests (run es (new_queue options)).1 ≤ max 1 options.max_attempts * gained_by es
unfolding new_queue worth credits
run-requests_bound options es =
    let m = max 1 options.max_attempts in
    omega (
      arith,
      worth_nil m,
      run-Spends m (omega arith) {options = options} es (new_queue options) (omega arith)
          (new_queue-IsSound options),
    )

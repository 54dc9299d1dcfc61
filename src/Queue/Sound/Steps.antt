-- ===== src/Queue/Sound/Steps.antt =====
-- Every call of core/src/queue.ts keeps its bounds.
use watchup_v3_packages.Prelude.{
  ℕ, ◌≡◌, refl, inl, inr, Bool, List, [], ◌∷◌, ◌++◌, arith, sum_of-append, Bool-cases, Option, none,
  some, ◌==◌,
}
use watchup_v3_packages.Utf8.{Str}
use watchup_v3_packages.Json.{Json, object}
use watchup_v3_packages.Truncate.{FitResult, fit_item}
use watchup_v3_packages.Types.{
  Kind, errors, traces, events, get, PreparedItem, Chunk, SendResult, FlushResult,
}
use watchup_v3_packages.Queue.State.{Options, Queue, Drain, Env, new_queue}
use watchup_v3_packages.Queue.Bound.{report_overflow}
use watchup_v3_packages.Queue.Drain.{
  arm_timer, schedule_from, earliest, schedule_retry, take_pending, start_send, finish, send_all,
  send_due, begin_round, FlushOptions, flush_idle, flush, keep_for_retry, conclude, another_round,
  advance, settle_drain, settle_idle, settle, no_result,
}
use watchup_v3_packages.Queue.Calls.{
  report_fit, push_pending, auto_flush, enqueue_fit, enqueue, start, stop, pause, resume,
  retry_timer_fires, take_all, QueueSnapshot, restored_items, restore_kind, merge_snapshot, restore,
  Event, enqueued, flushed, answered, timed_out, started, was_stopped, was_paused, resumed, taken,
  was_restored, step, run, plain_flush, item_budget,
}
use watchup_v3_packages.Queue.Sound.{pending_size, IsSound, pending_size-put, enforce_bound-IsSound}

restore_kind_counted :
    (k : Kind) (jsons : List Str) (q : Queue)
    → q.pending_bytes ≡ pending_size q.pending
    → (restore_kind k jsons q).pending_bytes ≡ pending_size (restore_kind k jsons q).pending
unfolding restore_kind
restore_kind_counted k jsons q h = omega (
  arith,
  pending_size-put k (restored_items k jsons ++ get k q.pending) q.pending,
  sum_of-append (λ (i : PreparedItem). i.bytes) (restored_items k jsons) (get k q.pending),
)

merge_snapshot_counted :
    (now : ℕ) (s : QueueSnapshot) (q : Queue)
    → q.pending_bytes ≡ pending_size q.pending
    → (merge_snapshot now s q).pending_bytes ≡ pending_size (merge_snapshot now s q).pending
unfolding merge_snapshot
merge_snapshot_counted now s q h =
    let with_errors = restore_kind errors s.pending.errors q in
    let with_traces = restore_kind traces s.pending.traces with_errors in
    restore_kind_counted events s.pending.events with_traces (
      restore_kind_counted traces s.pending.traces with_errors
        (restore_kind_counted errors s.pending.errors q h))

module _ {options : Options} where
  arm_timer-IsSound :
      (env : Env) (n : ℕ) (q : Queue) → IsSound options q → IsSound options (arm_timer env n q).0
  unfolding arm_timer
  arm_timer-IsSound env n q v = ground arith

  schedule_from-IsSound :
      (env : Env) (cs : List Chunk) (q : Queue)
      → IsSound options q
      → IsSound options (schedule_from env cs q).0
  unfolding schedule_from
  schedule_from-IsSound env [] q v = v
  schedule_from-IsSound env (c ∷ cs) q v = ground (arith, arm_timer-IsSound env (earliest c cs) q v)

  schedule_retry-IsSound :
      (env : Env) (q : Queue) → IsSound options q → IsSound options (schedule_retry env q).0
  unfolding schedule_retry
  schedule_retry-IsSound env q v = ground (arith, schedule_from-IsSound env q.retry q v)

  report_overflow-IsSound : (q : Queue) → IsSound options q → IsSound options (report_overflow q).0
  unfolding report_overflow
  report_overflow-IsSound q v = ground arith

  take_pending-IsSound : (q : Queue) → IsSound options q → IsSound options (take_pending q)
  unfolding take_pending
  take_pending-IsSound q v = ground arith

  send_all-IsSound :
      (env : Env) (m : Option ℕ) (result : FlushResult) (cs : List Chunk) (q : Queue)
      → IsSound options q
      → IsSound options (send_all env m result cs q).0
  unfolding send_all start_send finish
  send_all-IsSound env m result [] q v =
      schedule_retry-IsSound env (record q { drain = none })
        (record { fixed = v.fixed; counted = v.counted; bounded = v.bounded })
  send_all-IsSound env m result (c ∷ cs) q v = record {
    fixed = v.fixed;
    counted = v.counted;
    bounded = v.bounded;
  }

  send_due-IsSound :
      (env : Env) (force : Bool) (m : Option ℕ) (result : FlushResult) (q : Queue)
      → IsSound options q
      → IsSound options (send_due env force m result q).0
  unfolding send_due
  send_due-IsSound env force m result q v = send_all-IsSound env m result _ _ (
      take_pending-IsSound _ (record { fixed = v.fixed; counted = v.counted; bounded = v.bounded }))

  begin_round-IsSound :
      (env : Env) (m : Option ℕ) (result : FlushResult) (q : Queue)
      → IsSound options q
      → IsSound options (begin_round env m result q).0
  unfolding begin_round
  begin_round-IsSound env m result q v = send_due-IsSound env q.force_next m result _ (
      report_overflow-IsSound _
        (record { fixed = v.fixed; counted = v.counted; bounded = v.bounded }))

  finish-IsSound :
      (env : Env) (result : FlushResult) (q : Queue)
      → IsSound options q
      → IsSound options (finish env result q).0
  unfolding finish
  finish-IsSound env result q v =
      schedule_retry-IsSound env (record q { drain = none })
        (record { fixed = v.fixed; counted = v.counted; bounded = v.bounded })

  another_round-IsSound :
      (env : Env) (m : Option ℕ) (result : FlushResult) (q : Queue)
      → IsSound options q
      → IsSound options (another_round env m result q).0
  unfolding another_round
  another_round-IsSound env m result q v =
      ground (arith, begin_round-IsSound env m result q v, finish-IsSound env result q v)

  conclude-IsSound :
      (env : Env) (res : SendResult) (c : Chunk) (result : FlushResult) (q : Queue)
      → IsSound options q
      → IsSound options (conclude env res c result q).queue
  unfolding conclude keep_for_retry
  conclude-IsSound env res c result q v = ground arith

  advance-IsSound :
      (env : Env) (m : Option ℕ) (result : FlushResult) (todo : List Chunk) (q : Queue)
      → IsSound options q
      → IsSound options (advance env m result todo q).0
  unfolding advance start_send
  advance-IsSound env m result [] q v = another_round-IsSound env m result q v
  advance-IsSound env m result (c ∷ todo) q v = record {
    fixed = v.fixed;
    counted = v.counted;
    bounded = v.bounded;
  }

  settle_idle-IsSound :
      (env : Env) (res : SendResult) (o : Option Drain) (q : Queue)
      → IsSound options q
      → IsSound options (settle_idle env res o q).0
  unfolding settle_idle settle_drain
  settle_idle-IsSound env res none q v = v
  settle_idle-IsSound env res (some d) q v =
      advance-IsSound env d.max_bytes _ d.todo _ (conclude-IsSound env res d.in_flight d.result q v)

  flush_idle-IsSound :
      (env : Env) (opts : FlushOptions) (o : Option Drain) (q : Queue)
      → IsSound options q
      → IsSound options (flush_idle env opts o q).0
  unfolding flush_idle
  flush_idle-IsSound env opts (some d) q v = record {
    fixed = v.fixed;
    counted = v.counted;
    bounded = v.bounded;
  }
  flush_idle-IsSound env opts none q v =
      begin_round-IsSound env opts.max_bytes no_result _
        (record { fixed = v.fixed; counted = v.counted; bounded = v.bounded })

  flush-IsSound :
      (env : Env) (opts : FlushOptions) (q : Queue)
      → IsSound options q
      → IsSound options (flush env opts q).0
  unfolding flush
  flush-IsSound env opts q v = ground (arith, flush_idle-IsSound env opts q.drain q v)

  push_pending_counted :
      (k : Kind) (fit : FitResult) (q : Queue)
      → IsSound options q
      → (push_pending k fit q).pending_bytes ≡ pending_size (push_pending k fit q).pending
  unfolding push_pending
  push_pending_counted k fit q v =
      let item : PreparedItem = record { kind = k; json = fit.json; bytes = fit.bytes } in
      omega (
        arith,
        v.counted,
        pending_size-put k (get k q.pending ++ item ∷ []) q.pending,
        sum_of-append (λ (i : PreparedItem). i.bytes) (get k q.pending) (item ∷ []),
      )

  auto_flush-IsSound :
      (env : Env) (q : Queue) → IsSound options q → IsSound options (auto_flush env q).0
  unfolding auto_flush
  auto_flush-IsSound env q v = ground (arith, flush-IsSound env plain_flush q v)

  report_fit-IsSound :
      (k : Kind) (fit : FitResult) (q : Queue)
      → IsSound options q
      → IsSound options (report_fit k fit q).0
  report_fit-IsSound k fit q v = ground arith

  enqueue-IsSound :
      (env : Env) (k : Kind) (item : Option Json) (q : Queue)
      → IsSound options q
      → IsSound options (enqueue env k item q).0
  unfolding enqueue enqueue_fit push_pending
  enqueue-IsSound env k (some (object fs)) q v =
      let fit = fit_item fs (item_budget env q) in
      let reported = (report_fit k fit q).0 in
      let sound = report_fit-IsSound k fit q v in
      auto_flush-IsSound env _ (
        enforce_bound-IsSound (push_pending k fit reported) sound.fixed
          (push_pending_counted k fit reported sound))
  enqueue-IsSound env k item q v = v

  restore-IsSound :
      (env : Env) (s : Option QueueSnapshot) (q : Queue)
      → IsSound options q
      → IsSound options (restore env s q)
  unfolding restore merge_snapshot restore_kind
  restore-IsSound env none q v = v
  restore-IsSound env (some s) q v = elim (Bool-cases (s.version == 1)) [
    | inl known ↦ rw known (
        enforce_bound-IsSound (merge_snapshot env.now s q) v.fixed
          (merge_snapshot_counted env.now s q v.counted))
    | inr other ↦ rw other v
  ]

  take_all-IsSound :
      (env : Env) (m : ℕ) (q : Queue) → IsSound options q → IsSound options (take_all env m q).0
  unfolding take_all take_pending
  take_all-IsSound env m q v = ground arith

  pub step-IsSound :
      (env : Env) (e : Event) (q : Queue) → IsSound options q → IsSound options (step env e q).0
  unfolding step start stop pause resume retry_timer_fires settle
  step-IsSound env (enqueued k item) q v = enqueue-IsSound env k item q v
  step-IsSound env (flushed opts) q v = flush-IsSound env opts q v
  step-IsSound env (answered res) q v = settle_idle-IsSound env res q.drain q v
  step-IsSound env timed_out q v =
      flush-IsSound env plain_flush _
        (record { fixed = v.fixed; counted = v.counted; bounded = v.bounded })
  step-IsSound env (started ms) q v = ground arith
  step-IsSound env was_stopped q v = ground arith
  step-IsSound env was_paused q v = record {
    fixed = v.fixed;
    counted = v.counted;
    bounded = v.bounded;
  }
  step-IsSound env resumed q v =
      flush-IsSound env _ _ (record { fixed = v.fixed; counted = v.counted; bounded = v.bounded })
  step-IsSound env (taken m) q v = take_all-IsSound env m q v
  step-IsSound env (was_restored s) q v = restore-IsSound env s q v

  run-IsSound_from :
      (es : List (Env × Event)) (q : Queue) → IsSound options q → IsSound options (run es q).0
  unfolding run
  run-IsSound_from [] q v = v
  run-IsSound_from ((env, e) ∷ es) q v = run-IsSound_from es _ (step-IsSound env e q v)

pub new_queue-IsSound : (options : Options) → IsSound options (new_queue options)
unfolding new_queue
new_queue-IsSound options = record { fixed = refl; counted = omega arith; bounded = omega arith }

-- After any history of a new queue the byte counter is the sum of the pending items' byte counts,
-- at most `maxQueueItems` items are pending, and the options are still those of the constructor.
pub run-IsSound :
    (options : Options) (es : List (Env × Event)) → IsSound options (run es (new_queue options)).0
run-IsSound options es = run-IsSound_from es (new_queue options) (new_queue-IsSound options)

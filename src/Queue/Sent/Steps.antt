-- ===== src/Queue/Sent/Steps.antt =====
-- The requests of a whole history of core/src/queue.ts: each has what Queue/Sent.antt asks for.
use watchup_v3_packages.Prelude.{
  ℕ, refl, inl, inr, true, List, [], ◌∷◌, arith, Bool-cases, Option, none, some, ◌==◌, map, All,
  All-append,
}
use watchup_v3_packages.Json.{Json, object}
use watchup_v3_packages.Types.{Kind, Chunk}
use watchup_v3_packages.Truncate.{FitResult}
use watchup_v3_packages.Queue.State.{Options, Queue, new_queue, Env, changed, returned, ◌⨟◌, emit}
use watchup_v3_packages.Queue.Bound.{enforce_bound}
use watchup_v3_packages.Queue.Drain.{settle, take_pending}
use watchup_v3_packages.Queue.Calls.{
  plain_flush, report_fit, push_pending, auto_flush, wants_flush, enqueue_fit, enqueue, start, stop,
  pause, resume, retry_timer_fires, take_all, QueueSnapshot, restore_kind, due_now, merge_snapshot,
  restore, Event, enqueued, flushed, answered, timed_out, started, was_stopped, was_paused, resumed,
  taken, was_restored, step, run,
}
use watchup_v3_packages.Queue.Sent.{
  Rules, IsKept, SentWell, IsFine, IsFine-⨟, enforce_bound-IsKept, flush-IsFine, settle_idle-IsFine,
}

module _ {options : Options} {Waits Goes : Chunk → Type 0} (rules : Rules options Waits Goes) where
  -- The chunks that a snapshot brings back have to be such as wait.
  abbrev pub Brings : Event → Type 0
  Brings (was_restored (some s)) = (now : ℕ) → All Waits (map (due_now now) s.retry)
  Brings other = Unit

  report_fit-IsFine :
      (k : Kind) (fit : FitResult) (q : Queue) → IsKept rules q → IsFine rules (report_fit k fit q)
  report_fit-IsFine k fit q v = ground arith

  auto_flush-IsFine : (env : Env) (q : Queue) → IsKept rules q → IsFine rules (auto_flush env q)
  unfolding auto_flush
  auto_flush-IsFine env q v = elim (Bool-cases (wants_flush q)) [
    | inl due ↦ simp due (flush-IsFine rules env plain_flush q v)
    | inr early ↦ simp early (v, tt)
  ]

  push_pending-IsKept :
      (k : Kind) (fit : FitResult) (q : Queue)
      → IsKept rules q
      → IsKept rules (push_pending k fit q)
  unfolding push_pending
  push_pending-IsKept k fit q v = record {
    fixed = v.fixed;
    waiting = v.waiting;
    draining = v.draining;
  }

  enqueue_fit-IsFine :
      (env : Env) (k : Kind) (fit : FitResult) (q : Queue)
      → IsKept rules q
      → IsFine rules (enqueue_fit env k fit q)
  unfolding enqueue_fit
  enqueue_fit-IsFine env k fit q v =
      let put_in : (q : Queue)
          → IsKept rules q
          → IsFine rules (emit changed (enforce_bound (push_pending k fit q))) =
        λ q w. (enforce_bound-IsKept rules _ (push_pending-IsKept k fit q w), (tt, tt)) in
      IsFine-⨟ rules
        (report_fit k fit q
          ⨟ (λ q. emit changed (enforce_bound (push_pending k fit q)))
          ⨟ auto_flush env)
        (emit (returned true))
        (IsFine-⨟ rules
          (report_fit k fit q ⨟ (λ q. emit changed (enforce_bound (push_pending k fit q))))
          (auto_flush env)
          (IsFine-⨟ rules (report_fit k fit q)
            (λ q. emit changed (enforce_bound (push_pending k fit q))) (report_fit-IsFine k fit q v)
            put_in)
          (auto_flush-IsFine env))
        (λ q' w. (w, (tt, tt)))

  enqueue-IsFine :
      (env : Env) (k : Kind) (item : Option Json) (q : Queue)
      → IsKept rules q
      → IsFine rules (enqueue env k item q)
  unfolding enqueue
  enqueue-IsFine env k (some (object fs)) q v = enqueue_fit-IsFine env k _ q v
  enqueue-IsFine env k item q v = (v, (tt, tt))

  restore-IsKept :
      (env : Env) (s : Option QueueSnapshot) (q : Queue)
      → Brings (was_restored s)
      → IsKept rules q
      → IsKept rules (restore env s q)
  unfolding restore merge_snapshot restore_kind
  restore-IsKept env none q b v = v
  restore-IsKept env (some s) q b v = elim (Bool-cases (s.version == 1)) [
    | inl known ↦ simp known (
        enforce_bound-IsKept rules (merge_snapshot env.now s q) (record {
          fixed = v.fixed;
          waiting = All-append Waits q.retry (map (due_now env.now) s.retry) v.waiting (b env.now);
          draining = v.draining;
        }))
    | inr other ↦ simp other v
  ]

  take_all-IsFine :
      (env : Env) (m : ℕ) (q : Queue) → IsKept rules q → IsFine rules (take_all env m q)
  unfolding take_all take_pending
  take_all-IsFine env m q v = ground arith

  step-IsFine :
      (env : Env) (e : Event) (q : Queue) → Brings e → IsKept rules q → IsFine rules (step env e q)
  unfolding step start stop pause resume retry_timer_fires settle
  step-IsFine env (enqueued k item) q b v = enqueue-IsFine env k item q v
  step-IsFine env (flushed opts) q b v = flush-IsFine rules env opts q v
  step-IsFine env (answered res) q b v = settle_idle-IsFine rules env res q.drain q v v.draining
  step-IsFine env timed_out q b v =
      flush-IsFine rules env plain_flush _
        (record { fixed = v.fixed; waiting = v.waiting; draining = v.draining })
  step-IsFine env (started ms) q b v = ground arith
  step-IsFine env was_stopped q b v = ground arith
  step-IsFine env was_paused q b v =
      (record { fixed = v.fixed; waiting = v.waiting; draining = v.draining }, tt)
  step-IsFine env resumed q b v =
      flush-IsFine rules env _ _
        (record { fixed = v.fixed; waiting = v.waiting; draining = v.draining })
  step-IsFine env (taken m) q b v = take_all-IsFine env m q v
  step-IsFine env (was_restored s) q b v = (restore-IsKept env s q b v, tt)

  run-IsFine_from :
      (es : List (Env × Event)) (q : Queue)
      → All (λ e. Brings e.1) es
      → IsKept rules q
      → IsFine rules (run es q)
  unfolding run
  run-IsFine_from [] q b v = (v, tt)
  run-IsFine_from ((env, e) ∷ es) q b v =
      let first = step-IsFine env e q b.0 v in
      let rest = run-IsFine_from es (step env e q).0 b.1 first.0 in
      (rest.0, All-append (SentWell rules) (step env e q).1 _ first.1 rest.1)

  pub run-IsFine :
      (es : List (Env × Event))
      → All (λ e. Brings e.1) es
      → IsFine rules (run es (new_queue options))
  unfolding new_queue
  run-IsFine es b = run-IsFine_from es _ b (record { fixed = refl; waiting = tt; draining = tt })

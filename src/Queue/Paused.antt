-- ===== src/Queue/Paused.antt =====
-- What `pause` of core/src/queue.ts holds back, and what it does not.
pub mod Round
use watchup_v3_packages.Prelude.{
  ℕ, zero, suc, ◌+◌, ◌≡◌, refl, ap, ◌∙◌, inl, inr, Bool, true, List, [], ◌∷◌, ◌++◌, arith,
  Bool-cases, list_cases, Option, none, some, ◌==◌, sum_of-append, length, map, All, if◌then◌else◌,
  ◌||◌,
}
use watchup_v3_packages.Json.{Json, object}
use watchup_v3_packages.Types.{Kind, errors, traces, events, get, Chunk, SendResult, FlushResult}
use watchup_v3_packages.Truncate.{FitResult}
use watchup_v3_packages.Queue.State.{
  Queue, Drain, Env, sent, settled, changed, returned, Out, emit, ◌⨟◌, Effect,
}
use watchup_v3_packages.Queue.Bound.{shed, enforce_bound}
use watchup_v3_packages.Queue.Drain.{
  FlushOptions, flush, flush_idle, take_pending, settle, settle_idle, settle_drain, advance,
  start_send, conclude, no_result, trim, keep_for_retry, backoff,
}
use watchup_v3_packages.Queue.Calls.{
  plain_flush, report_fit, push_pending, auto_flush, wants_flush, enqueue_fit, enqueue, start, stop,
  pause, retry_timer_fires, take_all, merge_snapshot, restore_kind, restore, Event, enqueued,
  flushed, answered, timed_out, QueueSnapshot, started, was_stopped, was_paused, resumed, taken,
  was_restored, step, run,
}
use watchup_v3_packages.Queue.Delivery.{answers_of}
use watchup_v3_packages.Queue.Flight.{
  requests, is_sent, report_fit-IsStill, drain-enforce_bound, drain-restore,
}

-- A part that sends nothing and leaves the queue paused with no drain loop.
abbrev pub Holds : Out → Type 0
Holds o = (requests o.1 ≡ 0) × (o.0.drain ≡ none) × (o.0.paused ≡ true)

held_branch :
    (b : Bool) (q : Queue) (o : Out)
    → b ≡ true
    → q.drain ≡ none
    → q.paused ≡ true
    → Holds (if b then emit (settled no_result) q else o)
held_branch b q o e d p = rw e (refl, d, p)

flush-Holds :
    (env : Env) (opts : FlushOptions) (q : Queue)
    → q.drain ≡ none
    → q.paused ≡ true
    → Holds (flush env opts q)
unfolding flush
flush-Holds env opts q d p = held_branch q.paused q (flush_idle env opts q.drain q) p d p

paused-shed : (k : Kind) (n : ℕ) (q : Queue) → (shed k n q).queue.paused ≡ q.paused
unfolding shed
paused-shed k zero q = refl
paused-shed k (suc n) q = elim (list_cases (get k q.pending)) [
  | inl e ↦ rw (e, shed) refl
  | inr (item, rest, e) ↦ rw (e, shed) (paused-shed k n _)
]

paused-enforce_bound : (q : Queue) → (enforce_bound q).paused ≡ q.paused
unfolding enforce_bound
paused-enforce_bound q = paused-shed errors _ _ ∙ paused-shed traces _ _ ∙ paused-shed events _ q

paused-report_fit :
    (k : Kind) (fit : FitResult) (q : Queue) → (report_fit k fit q).0.paused ≡ q.paused
paused-report_fit k fit q = ground arith

auto_flush-Holds :
    (env : Env) (q : Queue) → q.drain ≡ none → q.paused ≡ true → Holds (auto_flush env q)
unfolding auto_flush
auto_flush-Holds env q d p = elim (Bool-cases (wants_flush q)) [
  | inl due ↦ simp due (flush-Holds env plain_flush q d p)
  | inr early ↦ simp early (refl, d, p)
]

enqueue_fit-Holds :
    (env : Env) (k : Kind) (fit : FitResult) (q : Queue)
    → q.drain ≡ none
    → q.paused ≡ true
    → Holds (enqueue_fit env k fit q)
unfolding enqueue_fit push_pending
enqueue_fit-Holds env k fit q d p =
    let reported = report_fit k fit q in
    let pushed = enforce_bound (push_pending k fit reported.0) in
    let s = report_fit-IsStill k fit q in
    let flushed_ =
      auto_flush-Holds env pushed (drain-enforce_bound (push_pending k fit reported.0) ∙ s.1 ∙ d)
        (paused-enforce_bound (push_pending k fit reported.0) ∙ paused-report_fit k fit q ∙ p) in
    (
      omega (
        arith,
        s.0,
        flushed_.0,
        sum_of-append is_sent reported.1 (changed ∷ []),
        sum_of-append is_sent (reported.1 ++ changed ∷ []) (auto_flush env pushed).1,
        sum_of-append is_sent ((reported.1 ++ changed ∷ []) ++ (auto_flush env pushed).1)
            (returned true ∷ []),
      ),
      flushed_.1,
      flushed_.2,
    )

enqueue-Holds :
    (env : Env) (k : Kind) (item : Option Json) (q : Queue)
    → q.drain ≡ none
    → q.paused ≡ true
    → Holds (enqueue env k item q)
unfolding enqueue
enqueue-Holds env k (some (object fs)) q d p = enqueue_fit-Holds env k _ q d p
enqueue-Holds env k item q d p = (refl, d, p)

paused-restore :
    (env : Env) (s : Option QueueSnapshot) (q : Queue) → (restore env s q).paused ≡ q.paused
unfolding restore merge_snapshot restore_kind
paused-restore env none q = refl
paused-restore env (some s) q = elim (Bool-cases (s.version == 1)) [
  | inl known ↦ simp known (paused-enforce_bound (merge_snapshot env.now s q))
  | inr other ↦ simp other
]

settled_idle-Holds :
    (env : Env) (res : SendResult) (o : Option Drain) (q : Queue)
    → o ≡ none
    → q.drain ≡ none
    → q.paused ≡ true
    → Holds (settle_idle env res o q)
unfolding settle_idle
settled_idle-Holds env res o q e d p = rw e (refl, d, p)

abbrev pub IsNotResumed : Event → Type 0
IsNotResumed resumed = ⊥
IsNotResumed other = Unit

step-Holds :
    (env : Env) (e : Event) (q : Queue)
    → IsNotResumed e
    → q.drain ≡ none
    → q.paused ≡ true
    → Holds (step env e q)
unfolding step start stop pause retry_timer_fires settle settle_idle take_all take_pending
step-Holds env resumed q h d p = elim h [ ]
step-Holds env (enqueued k item) q h d p = enqueue-Holds env k item q d p
step-Holds env (flushed opts) q h d p = flush-Holds env opts q d p
step-Holds env (answered res) q h d p = settled_idle-Holds env res q.drain q d d p
step-Holds env timed_out q h d p = flush-Holds env plain_flush _ d p
step-Holds env (started ms) q h d p = elim (Bool-cases (q.interval || ms == 0)) [
  | inl e ↦ simp e (refl, d, p)
  | inr e ↦ simp e (refl, d, p)
]
step-Holds env was_stopped q h d p = (ground arith, ground (arith, d), ground (arith, p))
step-Holds env was_paused q h d p = (refl, d, refl)
step-Holds env (taken m) q h d p = (ground arith, ground (arith, d), ground (arith, p))
step-Holds env (was_restored s) q h d p =
    (refl, drain-restore env s q ∙ d, paused-restore env s q ∙ p)

-- A queue that is paused with no request in flight sends nothing in any history until it is resumed,
-- and stays paused.
pub run-Holds :
    (es : List (Env × Event)) (q : Queue)
    → All (λ e. IsNotResumed e.1) es
    → q.drain ≡ none
    → q.paused ≡ true
    → Holds (run es q)
unfolding run
run-Holds [] q h d p = (refl, d, p)
run-Holds ((env, e) ∷ es) q h d p =
    let first = step-Holds env e q h.0 d p in
    let rest = run-Holds es (step env e q).0 h.1 first.1 first.2 in
    (
      omega (
        arith,
        first.0,
        rest.0,
        sum_of-append is_sent (step env e q).1 (run es (step env e q).0).1,
      ),
      rest.1,
      rest.2,
    )

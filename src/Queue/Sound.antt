-- ===== src/Queue/Sound.antt =====
-- The bounds of core/src/queue.ts: the byte counter is right and the queue within its limit.
pub mod Steps
use watchup_v3_packages.Prelude.{
  ℕ, zero, suc, ◌+◌, ◌-◌, ◌≤◌, ◌≡◌, ◌≢◌, refl, sym, ap, ◌∙◌, inl, inr, Bool, true, false, List, [],
  ◌∷◌, ◌++◌, arith, length, length-append, sum_of, sum_of-append, Bool-cases, Option-cases,
  list_cases, Option, none, some, keep_if, not, ltb, leb, ◌==◌, if◌then◌else◌, map,
}
use watchup_v3_packages.Utf8.{Str}
use watchup_v3_packages.Json.{Json, object}
use watchup_v3_packages.Truncate.{FitResult, fit_item}
use watchup_v3_packages.Types.{
  Kind, errors, traces, events, PerKind, get, put, PreparedItem, Chunk, SendResult, FlushResult,
}
use watchup_v3_packages.Types.Kinds.{get-put, get-put_ne}
use watchup_v3_packages.Chunker.Count.{total}
use watchup_v3_packages.Queue.State.{
  Options, Queue, Drain, Env, Effect, changed, settled, returned, Out, ◌⨟◌, done, emit, or_default,
  pending_count, new_queue,
}
use watchup_v3_packages.Queue.Bound.{Shed, drop_first, shed, enforce_bound, report_overflow}
use watchup_v3_packages.Queue.Drain.{
  arm_timer, schedule_from, earliest, schedule_retry, is_idle, cut, take_pending, start_send,
  finish, send_all, send_due, is_due, begin_round, FlushOptions, flush_idle, flush, keep_for_retry,
  is_rejected, conclude, Concluded, another_round, advance, settle_drain, settle_idle, settle,
  no_result,
}
use watchup_v3_packages.Queue.Calls.{
  report_fit, push_pending, auto_flush, enqueue_fit, enqueue, start, stop, pause, resume,
  retry_timer_fires, take_all, QueueSnapshot, restored_items, restore_kind, due_now, merge_snapshot,
  restore, Event, enqueued, flushed, answered, timed_out, started, was_stopped, was_paused, resumed,
  taken, was_restored, step, run, plain_flush, item_budget,
}

abbrev pub list_bytes : List PreparedItem → ℕ
list_bytes = sum_of λ item. item.bytes

abbrev pub pending_size : PerKind (List PreparedItem) → ℕ
pending_size p = list_bytes p.errors + list_bytes p.traces + list_bytes p.events

-- The counter is the sum of the pending items' bytes, the items are within `maxQueueItems`, and the
-- options are the constructor's.
pub record IsSound (options : Options) (q : Queue) : Type 0 where
  pub fixed : q.options ≡ options
  pub counted : q.pending_bytes ≡ pending_size q.pending
  pub bounded : pending_count q ≤ options.max_queue_items

pub total-put :
    (k : Kind) (items : List PreparedItem) (p : PerKind (List PreparedItem))
    → total (put k items p) + length (get k p) ≡ total p + length items
total-put Kind.errors items p = omega arith
total-put Kind.traces items p = omega arith
total-put Kind.events items p = omega arith

pub pending_size-put :
    (k : Kind) (items : List PreparedItem) (p : PerKind (List PreparedItem))
    → pending_size (put k items p) + list_bytes (get k p) ≡ pending_size p + list_bytes items
pending_size-put Kind.errors items p = omega arith
pending_size-put Kind.traces items p = omega arith
pending_size-put Kind.events items p = omega arith

-- What a run of `shed` leaves.
record IsShed (k : Kind) (n : ℕ) (q : Queue) (r : Shed) : Type 0 where
  excess : r.excess ≡ n - length (get k q.pending)
  counted : r.queue.pending_bytes ≡ pending_size r.queue.pending
  fewer : pending_count r.queue + n ≡ pending_count q + r.excess
  options : r.queue.options ≡ q.options
  others : (j : Kind) → j ≢ k → length (get j r.queue.pending) ≡ length (get j q.pending)

-- A kind with nothing left.
IsShed-none :
    (k : Kind) (n : ℕ) (q : Queue)
    → q.pending_bytes ≡ pending_size q.pending
    → length (get k q.pending) ≡ 0
    → IsShed k n q (record { excess = n; queue = q })
IsShed-none k n q h e = record {
  excess = omega arith;
  counted = h;
  fewer = omega arith;
  options = refl;
  others = λ j _. refl;
}

-- One more item is dropped in front of a run.
shed_one :
    (k : Kind) (n : ℕ) (q : Queue) (item : PreparedItem) (rest : List PreparedItem) (r : Shed)
    → get k q.pending ≡ item ∷ rest
    → IsShed k n (drop_first k item rest q) r
    → IsShed k (suc n) q r
shed_one k n q item rest r e v = record {
  excess = omega (arith, v.excess, ap length e, ap length (get-put k rest q.pending));
  counted = v.counted;
  fewer = omega (arith, v.fewer, total-put k rest q.pending, ap length e);
  options = v.options;
  others = λ j ne. v.others j ne ∙ ap length (get-put_ne j k rest q.pending ne);
}

shed-IsShed :
    (k : Kind) (n : ℕ) (q : Queue)
    → q.pending_bytes ≡ pending_size q.pending
    → IsShed k n q (shed k n q)
unfolding shed
shed-IsShed k zero q h = record {
  excess = omega arith;
  counted = h;
  fewer = omega arith;
  options = refl;
  others = λ j _. refl;
}
shed-IsShed k (suc n) q h = elim (list_cases (get k q.pending)) [
  | inl e ↦ rw (e, shed) (IsShed-none k (suc n) q h (ap length e))
  | inr (item, rest, e) ↦
      rw (e, shed)
        (shed_one k n q item rest _ e (
          shed-IsShed k n (drop_first k item rest q)
            (omega (arith, pending_size-put k rest q.pending, ap list_bytes e))))
]

pub enforce_bound-IsSound :
    {options : Options} (q : Queue)
    → q.options ≡ options
    → q.pending_bytes ≡ pending_size q.pending
    → IsSound options (enforce_bound q)
unfolding enforce_bound
enforce_bound-IsSound q same_options h =
    let n = pending_count q - q.options.max_queue_items in
    let e = shed-IsShed events n q h in
    let after_events = shed events n q in
    let t = shed-IsShed traces after_events.excess after_events.queue e.counted in
    let after_traces = shed traces after_events.excess after_events.queue in
    let r = shed-IsShed errors after_traces.excess after_traces.queue t.counted in
    record {
      fixed = r.options ∙ t.options ∙ e.options ∙ same_options;
      counted = r.counted;
      bounded = omega (
        arith,
        ap (λ (o : Options). o.max_queue_items) same_options,
        e.excess,
        e.fewer,
        e.others traces (λ x. cc),
        e.others errors (λ x. cc),
        t.excess,
        t.fewer,
        t.others errors (λ x. cc),
        r.excess,
        r.fewer,
      );
    }

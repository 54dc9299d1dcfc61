-- ===== src/Queue/Bound.antt =====
-- The bound on pending items of core/src/queue.ts, and the report of what it dropped.
use watchup_v3_packages.Prelude.{ℕ, zero, suc, ◌+◌, ◌-◌, ◌==◌, List, [], ◌∷◌, if◌then◌else◌}
use watchup_v3_packages.Types.{Kind, errors, traces, events, get, put, all_kinds, PreparedItem}
use watchup_v3_packages.Queue.State.{
  Queue, Out, done, emit, diagnose, queue_overflow, pending_count,
}

pub record Shed : Type 0 where
  pub excess : ℕ
  pub queue : Queue

abbrev pub drop_first : Kind → PreparedItem → List PreparedItem → Queue → Queue
drop_first kind item rest q = record q {
  pending = put kind rest q.pending;
  pending_bytes = q.pending_bytes - item.bytes;
  overflow = put kind (get kind q.overflow + 1) q.overflow;
}

-- The inner loop of `enforceBound`: it ends when the excess or the items of the kind run out.
unfoldable pub shed : Kind → ℕ → Queue → Shed
shed kind zero q = record { excess = zero; queue = q }
shed kind (suc n) q = elim (get kind q.pending) [
  | [] ↦ record { excess = suc n; queue = q }
  | item ∷ rest ↦ shed kind n (drop_first kind item rest q)
]

-- With no excess the loops change nothing, so the early return needs no branch of its own.
unfoldable pub enforce_bound : Queue → Queue
enforce_bound q =
    let after_events = shed events (pending_count q - q.options.max_queue_items) q in
    let after_traces = shed traces after_events.excess after_events.queue in
    (shed errors after_traces.excess after_traces.queue).queue

abbrev pub overflow_count : Queue → ℕ
overflow_count q = q.overflow.errors + q.overflow.traces + q.overflow.events

unfoldable pub report_overflow : Queue → Out
report_overflow q =
    if overflow_count q == 0
    then done q
    else emit (diagnose (queue_overflow q.overflow)) (record q { overflow = all_kinds 0 })

-- ===== src/Queue/Calls.antt =====
-- The other calls of `DeliveryQueue` of core/src/queue.ts, and its histories: lists of calls, timers
-- and answers, in any order.
use watchup_v3_packages.Prelude.{
  ℕ, ◌+◌, ◌-◌, ◌++◌, ◌==◌, ◌||◌, ◌&&◌, not, Bool, true, false, List, [], ◌∷◌, ltb, leb,
  if◌then◌else◌, Option, none, some, length, map, sum_of,
}
use watchup_v3_packages.Utf8.{Str, units, utf8_byte_length}
use watchup_v3_packages.Json.{Json, object}
use watchup_v3_packages.Types.{
  Kind, errors, traces, events, PerKind, get, put, PreparedItem, Chunk, SendResult,
}
use watchup_v3_packages.Chunker.{envelope_overhead}
use watchup_v3_packages.Chunker.Plan.{texts}
use watchup_v3_packages.Truncate.{FitResult, fit_item}
use watchup_v3_packages.Queue.State.{
  Queue, Env, diagnose, changed, timer_cancelled, interval_armed, interval_cancelled, returned,
  took, item_truncated, item_oversized, undelivered_on_shutdown, Out, ◌⨟◌, done, emit,
  pending_count, retrying_count,
}
use watchup_v3_packages.Queue.Bound.{enforce_bound}
use watchup_v3_packages.Queue.Drain.{FlushOptions, flush, settle, cut, take_pending, earliest}

abbrev pub plain_flush : FlushOptions
plain_flush = record { force = false; max_bytes = none }

-- The default of `envelopeOverhead`'s second argument.
abbrev default_sent_at : Str
default_sent_at = units "2026-01-01T00:00:00.000Z"

-- A budget below 0 is 0 here: no serialized item takes 0 bytes or less.
abbrev pub item_budget : Env → Queue → ℕ
item_budget env q = q.options.max_bytes - envelope_overhead env.base default_sent_at

abbrev pub report_fit : Kind → FitResult → Queue → Out
report_fit kind fit q =
    (if fit.truncated then emit (diagnose (item_truncated kind fit.bytes)) q else done q) ⨟ λ q.
    if fit.oversized then emit (diagnose (item_oversized kind fit.bytes)) q else done q

-- The item goes behind the pending ones of its kind.
unfoldable pub push_pending : Kind → FitResult → Queue → Queue
push_pending kind fit q =
    let item : PreparedItem = record { kind = kind; json = fit.json; bytes = fit.bytes } in
    record q {
      pending = put kind (get kind q.pending ++ item ∷ []) q.pending;
      pending_bytes = q.pending_bytes + fit.bytes;
    }

unfoldable pub wants_flush : Queue → Bool
wants_flush q =
    q.options.auto_flush
    && (not q.stopped
        && (leb q.options.max_items (pending_count q)
            || leb q.options.max_bytes q.pending_bytes
            || leb q.options.error_flush_threshold (length q.pending.errors)))

unfoldable pub auto_flush : Env → Queue → Out
auto_flush env q = if wants_flush q then flush env plain_flush q else done q

unfoldable pub enqueue_fit : Env → Kind → FitResult → Queue → Out
enqueue_fit env kind fit q =
    report_fit kind fit q
    ⨟ (λ q. emit changed (enforce_bound (push_pending kind fit q)))
    ⨟ auto_flush env
    ⨟ emit (returned true)

-- `enqueue`, from the result of `normalize` on; `none` is `undefined`.
unfoldable pub enqueue : Env → Kind → Option Json → Queue → Out
enqueue env kind (some (object fs)) q = enqueue_fit env kind (fit_item fs (item_budget env q)) q
enqueue env kind other q = emit (returned false) q

unfoldable pub start : ℕ → Queue → Out
start interval_ms q =
    if q.interval || interval_ms == 0
    then done (record q { stopped = false })
    else emit (interval_armed interval_ms) (record q { stopped = false; interval = true })

unfoldable pub stop : Queue → Out
stop q =
    (if q.interval then emit interval_cancelled q else done q)
    ⨟ (λ q. if q.retry_timer then emit timer_cancelled q else done q)
    ⨟ λ q.
        done
          (record q { stopped = true; interval = false; retry_timer = false; retry_timer_at = 0 })

unfoldable pub pause : Queue → Out
pause q = done (record q { paused = true })

unfoldable pub resume : Env → Queue → Out
resume env q = flush env (record { force = true; max_bytes = none }) (record q { paused = false })

-- The retry timer runs out.
unfoldable pub retry_timer_fires : Env → Queue → Out
retry_timer_fires env q =
    flush env plain_flush (record q { retry_timer = false; retry_timer_at = 0 })

unfoldable pub take_all : Env → ℕ → Queue → Out
take_all env max_bytes q =
    let chunks = q.retry ++ cut env max_bytes q in
    (if q.retry_timer then emit timer_cancelled q else done q) ⨟ λ q.
    (take_pending (record q { retry = []; retry_timer = false }), changed ∷ took chunks ∷ [])

-- `QueueSnapshot`; a restored chunk's `nextAttemptAt` is not read.
pub record QueueSnapshot : Type 0 where
  pub version : ℕ
  pub pending : PerKind (List Str)
  pub retry : List Chunk

unfoldable pub snapshot : Queue → QueueSnapshot
snapshot q = record {
  version = 1;
  pending = record {
    errors = texts q.pending.errors;
    traces = texts q.pending.traces;
    events = texts q.pending.events;
  };
  retry = q.retry;
}

abbrev pub restored_items : Kind → List Str → List PreparedItem
restored_items kind = map λ json. record { kind = kind; json = json; bytes = utf8_byte_length json }

unfoldable pub restore_kind : Kind → List Str → Queue → Queue
restore_kind kind jsons q =
    let restored = restored_items kind jsons in
    record q {
      pending = put kind (restored ++ get kind q.pending) q.pending;
      pending_bytes = q.pending_bytes + sum_of (λ i. i.bytes) restored;
    }

abbrev pub due_now : ℕ → Chunk → Chunk
due_now now c = record c { next_attempt_at = now }

-- The two loops of `restore`.
unfoldable pub merge_snapshot : ℕ → QueueSnapshot → Queue → Queue
merge_snapshot now s q =
    let q' =
      restore_kind events s.pending.events
        (restore_kind traces s.pending.traces (restore_kind errors s.pending.errors q)) in
    record q' { retry = q'.retry ++ map (due_now now) s.retry }

-- A snapshot that is missing or of another version is ignored.
unfoldable pub restore : Env → Option QueueSnapshot → Queue → Queue
restore env none q = q
restore env (some s) q = if s.version == 1 then enforce_bound (merge_snapshot env.now s q) else q

-- `shutdown` up to the await of its first flush.
unfoldable pub begin_shutdown : Env → Queue → Out
begin_shutdown env q = stop q ⨟ flush env plain_flush

-- What the loop of `shutdown` does after a flush: leave, or wait before the next flush.
pub data AfterFlush : Type 0 where
  leave : AfterFlush
  wait : ℕ → AfterFlush

unfoldable pub wait_for_retry : ℕ → ℕ → List Chunk → AfterFlush
wait_for_retry now deadline [] = leave
wait_for_retry now deadline (c ∷ cs) =
    let next = earliest c cs in if ltb deadline next then leave else wait (next - now)

-- With no chunk waiting the loop is left whether or not items are pending.
unfoldable pub after_flush : ℕ → ℕ → Queue → AfterFlush
unfolding wait_for_retry
after_flush now deadline q = wait_for_retry now deadline q.retry

unfoldable pub report_undelivered : Queue → Out
report_undelivered q =
    if pending_count q + retrying_count q == 0
    then done q
    else emit (diagnose (undelivered_on_shutdown (pending_count q) (retrying_count q))) q

-- What can happen to a queue.
pub data Event : Type 0 where
  enqueued : Kind → Option Json → Event
  flushed : FlushOptions → Event
  answered : SendResult → Event
  timed_out : Event
  started : ℕ → Event
  was_stopped was_paused resumed : Event
  taken : ℕ → Event
  was_restored : Option QueueSnapshot → Event

unfoldable pub step : Env → Event → Queue → Out
step env (enqueued kind item) q = enqueue env kind item q
step env (flushed opts) q = flush env opts q
step env (answered res) q = settle env res q
step env timed_out q = retry_timer_fires env q
step env (started ms) q = start ms q
step env was_stopped q = stop q
step env was_paused q = pause q
step env resumed q = resume env q
step env (taken max_bytes) q = take_all env max_bytes q
step env (was_restored s) q = done (restore env s q)

unfoldable pub run : List (Env × Event) → Queue → Out
run [] q = done q
run ((env, e) ∷ es) q = step env e q ⨟ run es

-- One round of the loop of `shutdown`: the flush begins at `begun`, `between` happens until it is
-- over, its answers among it, and it is over at `over`. The next round begins after the wait.
pub record Round : Type 0 where
  pub begun : Env
  pub between : List (Env × Event)
  pub over : Env

-- `break`, or `sleep` and go on.
unfoldable pub left_or : AfterFlush → Queue → Queue × Bool → Queue × Bool
left_or leave q rest = (q, true)
left_or (wait ms) q rest = rest

-- `for (;;)`, for as many rounds as are given; true if the loop is left within them.
unfoldable pub shutdown_loop : ℕ → List Round → Queue → Queue × Bool
shutdown_loop deadline [] q = (q, false)
shutdown_loop deadline (r ∷ rounds) q =
    let q' = (run r.between (flush r.begun plain_flush q).0).0 in
    left_or (after_flush r.over.now deadline q') q' (shutdown_loop deadline rounds q')

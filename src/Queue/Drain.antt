-- ===== src/Queue/Drain.antt =====
-- `flush` and the drain loop of core/src/queue.ts, cut at its awaits: `flush` runs up to the first
-- request, and `settle` from the answer of one request to the next, or to the end of the loop.
use watchup_v3_packages.Prelude.{
  ℕ, ◌+◌, ◌-◌, ◌*◌, ◌/◌, ◌^◌, min, ◌++◌, ◌||◌, ◌&&◌, not, Bool, true, false, List, [], ◌∷◌, ltb,
  leb, if◌then◌else◌, Option, none, some, length, keep_if,
}
use watchup_v3_packages.Utf8.{Str}
use watchup_v3_packages.Types.{all_kinds, Chunk, SendResult, FlushResult}
use watchup_v3_packages.Chunker.{build_chunks}
use watchup_v3_packages.Chunker.Count.{items_in}
use watchup_v3_packages.Http.{is_retryable_status, max_retry_after_ms}
use watchup_v3_packages.Queue.State.{
  Options, Queue, Drain, Env, Details, Diagnostic, chunk_retry, chunk_rejected, chunk_dropped,
  Effect, diagnose, sent, changed, settled, timer_armed, timer_cancelled, Out, ◌⨟◌, done, emit,
  or_default, pending_count, max_retry_chunks,
}
use watchup_v3_packages.Queue.Bound.{report_overflow}

abbrev pub random_unit : ℕ
random_unit = 2 ^ 53

-- `Math.round(exp * (0.5 + random * 0.5))` in whole numbers, with no rounding in between.
unfoldable pub jittered : ℕ → ℕ → ℕ → ℕ
jittered unit random exp = (exp * (unit + random) + unit) / (2 * unit)

unfoldable pub backoff : Options → ℕ → ℕ → Option ℕ → ℕ
backoff opts random attempt (some retry_after_ms) = min retry_after_ms max_retry_after_ms
backoff opts random attempt none =
    jittered random_unit random (min opts.max_backoff_ms (opts.base_backoff_ms * 2 ^ (attempt - 1)))

-- `Math.min(...retry.map((c) => c.nextAttemptAt))`, which is only read when the list holds a chunk.
unfoldable pub earliest : Chunk → List Chunk → ℕ
earliest c [] = c.next_attempt_at
earliest c (d ∷ ds) = min c.next_attempt_at (earliest d ds)

unfoldable pub arm_timer : Env → ℕ → Queue → Out
arm_timer env next q = (if q.retry_timer then emit timer_cancelled q else done q) ⨟ λ q.
    emit (timer_armed (next - env.now)) (record q { retry_timer = true; retry_timer_at = next })

unfoldable pub schedule_from : Env → List Chunk → Queue → Out
schedule_from env [] q = done q
schedule_from env (c ∷ cs) q =
    let next = earliest c cs in
    if q.retry_timer && leb q.retry_timer_at next then done q else arm_timer env next q

unfoldable pub schedule_retry : Env → Queue → Out
schedule_retry env q = if q.stopped then done q else schedule_from env q.retry q

abbrev pub is_idle : Queue → Bool
is_idle q = leb (pending_count q) 0

-- The chunks that `cut` makes; `take_pending` is its other half.
unfoldable pub cut : Env → ℕ → Queue → List Chunk
cut env max_bytes q =
    if is_idle q
    then []
    else build_chunks env.base (record { max_bytes = max_bytes; max_items = q.options.max_items })
        env.batch_id env.sent_at env.now q.pending

unfoldable pub take_pending : Queue → Queue
take_pending q = if is_idle q then q else record q { pending = all_kinds []; pending_bytes = 0 }

-- `sendOne` up to its await.
unfoldable pub start_send : Option ℕ → FlushResult → Chunk → List Chunk → Queue → Out
start_send max_bytes result c todo q =
    let tried = record c { attempts = c.attempts + 1 } in
    emit (sent tried) (record q {
      drain =
          some (record { result = result; in_flight = tried; todo = todo; max_bytes = max_bytes });
    })

-- The end of the loop.
unfoldable pub finish : Env → FlushResult → Queue → Out
finish env result q = schedule_retry env (record q { drain = none }) ⨟ emit (settled result)

abbrev pub is_due : Bool → ℕ → Chunk → Bool
is_due force now c = force || leb c.next_attempt_at now

unfoldable pub send_all : Env → Option ℕ → FlushResult → List Chunk → Queue → Out
send_all env max_bytes result [] q = finish env result q
send_all env max_bytes result (c ∷ todo) q = start_send max_bytes result c todo q

-- The due retries, then what `cut` makes of the pending items; the other retries stay.
unfoldable pub send_due : Env → Bool → Option ℕ → FlushResult → Queue → Out
send_due env force max_bytes result q =
    let due = keep_if (is_due force env.now) q.retry in
    let later = keep_if (λ c. not (is_due force env.now c)) q.retry in
    let fresh = cut env (or_default max_bytes q.options.max_bytes) q in
    send_all env max_bytes result (due ++ fresh) (take_pending (record q { retry = later }))

-- One round of the loop, up to its first await. With nothing to send it is the last round: nothing
-- sets `rerun` before an await.
unfoldable pub begin_round : Env → Option ℕ → FlushResult → Queue → Out
begin_round env max_bytes result q =
    report_overflow (record q { rerun = false; force_next = false })
    ⨟ send_due env q.force_next max_bytes result

abbrev pub no_result : FlushResult
no_result = record { accepted = 0; delivered_items = 0; retrying = 0; dropped = 0 }

pub record FlushOptions : Type 0 where
  pub force : Bool
  pub max_bytes : Option ℕ

unfoldable pub flush_idle : Env → FlushOptions → Option Drain → Queue → Out
flush_idle env opts (some d) q =
    done (record q { rerun = true; force_next = if opts.force then true else q.force_next })
flush_idle env opts none q =
    begin_round env opts.max_bytes no_result (record q { force_next = opts.force })

unfoldable pub flush : Env → FlushOptions → Queue → Out
flush env opts q = if q.paused then emit (settled no_result) q else flush_idle env opts q.drain q

-- `...(text && { text })`
abbrev pub if_said : Option Str → Option Str
if_said none = none
if_said (some []) = none
if_said (some (c ∷ s)) = some (c ∷ s)

abbrev pub details_of : Chunk → SendResult → Details
details_of c res = record {
  idempotency_key = c.idempotency_key;
  attempt = some c.attempts;
  items = items_in c;
  status = res.status;
  code = if_said res.code;
  error = if_said res.error;
}

-- The answer's branch of `sendOne` changes the queue and the flush result.
pub record Concluded : Type 0 where
  pub queue : Queue
  pub result : FlushResult
  pub effects : List Effect

abbrev pub trim_details : Chunk → Details
trim_details c = record {
  idempotency_key = c.idempotency_key;
  attempt = none;
  items = items_in c;
  status = none;
  code = none;
  error = none;
}

pub record Trimmed : Type 0 where
  pub retry : List Chunk
  pub dropped : ℕ
  pub effects : List Effect

-- `while (this.retry.length > MAX_RETRY_CHUNKS) …shift()`
unfoldable pub trim : List Chunk → Trimmed
trim [] = record { retry = []; dropped = 0; effects = [] }
trim (c ∷ cs) =
    let more = trim cs in
    if ltb max_retry_chunks (length (c ∷ cs))
    then record {
      retry = more.retry;
      dropped = more.dropped + 1;
      effects = diagnose (chunk_dropped (trim_details c)) ∷ more.effects;
    }
    else record { retry = c ∷ cs; dropped = 0; effects = [] }

abbrev pub is_rejected : Option ℕ → Bool
is_rejected none = false
is_rejected (some status) = not (is_retryable_status status)

abbrev drop_chunk : Diagnostic → FlushResult → Queue → Concluded
drop_chunk d result q = record {
  queue = q;
  result = record result { dropped = result.dropped + 1 };
  effects = diagnose d ∷ [];
}

unfoldable pub keep_for_retry : Env → SendResult → Chunk → FlushResult → Queue → Concluded
keep_for_retry env res c result q =
    let delay = backoff q.options env.random c.attempts res.retry_after_ms in
    let waiting = record c { next_attempt_at = env.now + delay } in
    let trimmed = trim (q.retry ++ waiting ∷ []) in
    record {
      queue = record q { retry = trimmed.retry };
      result = record result {
        retrying = result.retrying + 1;
        dropped = result.dropped + trimmed.dropped;
      };
      effects = diagnose (chunk_retry (details_of c res) delay) ∷ trimmed.effects;
    }

-- `sendOne` from its await on.
unfoldable pub conclude : Env → SendResult → Chunk → FlushResult → Queue → Concluded
conclude env res c result q =
    if res.ok
    then record {
      queue = record q { delivered = q.delivered + items_in c };
      result = record result {
        accepted = result.accepted + 1;
        delivered_items = result.delivered_items + items_in c;
      };
      effects = [];
    }
    else if is_rejected res.status
    then drop_chunk (chunk_rejected (details_of c res)) result q
    else if leb q.options.max_attempts c.attempts
    then drop_chunk (chunk_dropped (details_of c res)) result q
    else keep_for_retry env res c result q

-- `while (this.rerun)`
unfoldable pub another_round : Env → Option ℕ → FlushResult → Queue → Out
another_round env max_bytes result q =
    if q.rerun then begin_round env max_bytes result q else finish env result q

-- The rest of the round after a request: the next chunk, another round, or the end.
unfoldable pub advance : Env → Option ℕ → FlushResult → List Chunk → Queue → Out
advance env max_bytes result (c ∷ todo) q = start_send max_bytes result c todo q
advance env max_bytes result [] q = emit changed q ⨟ another_round env max_bytes result

unfoldable pub settle_drain : Env → SendResult → Drain → Queue → Out
settle_drain env res d q =
    let r = conclude env res d.in_flight d.result q in
    (r.queue, r.effects) ⨟ advance env d.max_bytes r.result d.todo

unfoldable pub settle_idle : Env → SendResult → Option Drain → Queue → Out
settle_idle env res none q = done q
settle_idle env res (some d) q = settle_drain env res d q

-- The answer of the request in flight arrives.
unfoldable pub settle : Env → SendResult → Queue → Out
settle env res q = settle_idle env res q.drain q

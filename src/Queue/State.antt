-- ===== src/Queue/State.antt =====
-- The state of `DeliveryQueue` of core/src/queue.ts, its options, and what its steps do outside.
use watchup_v3_packages.Prelude.{
  ℕ, ◌+◌, ◌/◌, min, max, ◌++◌, Bool, List, [], ◌∷◌, Option, none, some, sum_of,
}
use watchup_v3_packages.Utf8.{Str}
use watchup_v3_packages.Types.{
  Kind, PerKind, all_kinds, EnvelopeBase, PreparedItem, Chunk, FlushResult,
}
use watchup_v3_packages.Chunker.Count.{items_in, total}

-- The options that are numbers or switches, as the constructor resolves them.
pub record Options : Type 0 where
  pub max_bytes : ℕ
  pub max_items : ℕ
  pub max_queue_items : ℕ
  pub max_attempts : ℕ
  pub base_backoff_ms : ℕ
  pub max_backoff_ms : ℕ
  pub error_flush_threshold : ℕ
  pub auto_flush : Bool

-- The same as the caller gives them; `none` is `undefined`.
pub record GivenOptions : Type 0 where
  pub max_bytes : Option ℕ
  pub max_items : Option ℕ
  pub max_queue_items : Option ℕ
  pub max_attempts : Option ℕ
  pub base_backoff_ms : Option ℕ
  pub max_backoff_ms : Option ℕ
  pub error_flush_threshold : Option ℕ
  pub auto_flush : Option Bool

abbrev pub or_default {ℓ} : {A : Type ℓ} → Option A → A → A
or_default none d = d
or_default (some a) d = a

abbrev pub max_chunk_items : ℕ
max_chunk_items = 100

abbrev pub max_retry_chunks : ℕ
max_retry_chunks = 50

-- `Math.ceil(maxItems / 2)` of a whole number is `(maxItems + 1) / 2`.
unfoldable pub resolve_options : GivenOptions → Options
resolve_options given =
    let max_items = or_default given.max_items max_chunk_items in
    record {
      max_bytes = or_default given.max_bytes 196_608;
      max_items = min max_items max_chunk_items;
      max_queue_items = or_default given.max_queue_items 1000;
      max_attempts = or_default given.max_attempts 5;
      base_backoff_ms = or_default given.base_backoff_ms 1000;
      max_backoff_ms = or_default given.max_backoff_ms 30_000;
      error_flush_threshold = or_default given.error_flush_threshold (max 1 ((max_items + 1) / 2));
      auto_flush = or_default given.auto_flush Bool.true;
    }

-- The drain loop between two steps: it awaits the answer for `in_flight`, and goes on with `todo`.
pub record Drain : Type 0 where
  pub result : FlushResult
  pub in_flight : Chunk
  pub todo : List Chunk
  pub max_bytes : Option ℕ

-- `drain` is the loop while `draining` is true. `retry_timer` tells whether `cancelRetryTimer` is
-- set, and `interval` whether `cancelInterval` is.
pub record Queue : Type 0 where
  pub options : Options
  pub pending : PerKind (List PreparedItem)
  pub pending_bytes : ℕ
  pub retry : List Chunk
  pub drain : Option Drain
  pub rerun : Bool
  pub force_next : Bool
  pub overflow : PerKind ℕ
  pub retry_timer : Bool
  pub retry_timer_at : ℕ
  pub interval : Bool
  pub stopped : Bool
  pub paused : Bool
  pub delivered : ℕ

unfoldable pub new_queue : Options → Queue
new_queue options = record {
  options = options;
  pending = all_kinds [];
  pending_bytes = 0;
  retry = [];
  drain = none;
  rerun = Bool.false;
  force_next = Bool.false;
  overflow = all_kinds 0;
  retry_timer = Bool.false;
  retry_timer_at = 0;
  interval = Bool.false;
  stopped = Bool.false;
  paused = Bool.false;
  delivered = 0;
}

-- What the caller and the platform supply during one step: the clock in milliseconds, a random
-- number in units of 2 ^ -53, a new batch identifier, the clock as an ISO text, `base()`.
pub record Env : Type 0 where
  pub now : ℕ
  pub random : ℕ
  pub batch_id : Str
  pub sent_at : Str
  pub base : EnvelopeBase

-- The `details` of a diagnostic about a chunk.
pub record Details : Type 0 where
  pub idempotency_key : Str
  pub attempt : Option ℕ
  pub items : ℕ
  pub status : Option ℕ
  pub code : Option Str
  pub error : Option Str

-- The diagnostics by type, with their details; the message is made from these.
pub data Diagnostic : Type 0 where
  item_truncated : Kind → ℕ → Diagnostic
  item_oversized : Kind → ℕ → Diagnostic
  chunk_retry : Details → ℕ → Diagnostic
  chunk_rejected : Details → Diagnostic
  chunk_dropped : Details → Diagnostic
  queue_overflow : PerKind ℕ → Diagnostic
  undelivered_on_shutdown : ℕ → ℕ → Diagnostic

-- What a step does outside the queue, in order. `settled` resolves the promise of a flush, and
-- `returned` and `took` are the results of `enqueue` and `takeAll`.
pub data Effect : Type 0 where
  diagnose : Diagnostic → Effect
  sent : Chunk → Effect
  changed : Effect
  settled : FlushResult → Effect
  timer_armed : ℕ → Effect
  timer_cancelled : Effect
  interval_armed : ℕ → Effect
  interval_cancelled : Effect
  returned : Bool → Effect
  took : List Chunk → Effect

abbrev pub Out : Type 0
Out = Queue × List Effect

-- One part of a step after another.
infixl 5 ◌⨟◌
abbrev pub ◌⨟◌ : Out → (Queue → Out) → Out
o ⨟ f = ((f o.0).0, o.1 ++ (f o.0).1)

abbrev pub done : Queue → Out
done q = (q, [])

abbrev pub emit : Effect → Queue → Out
emit e q = (q, e ∷ [])

abbrev pub pending_count : Queue → ℕ
pending_count q = total q.pending

unfoldable pub retrying_count : Queue → ℕ
retrying_count q = sum_of items_in q.retry

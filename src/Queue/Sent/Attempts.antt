-- ===== src/Queue/Sent/Attempts.antt =====
-- What core/src/queue.ts sends, and how often.
use watchup_v3_packages.Prelude.{
  ℕ, ◌≤◌, ◌<◌, ◌*◌, ◌≡◌, refl, inl, inr, List, [], ◌∷◌, arith, Bool-cases, none, some, leb→lt, max,
  All, All-weaken, map,
}
use watchup_v3_packages.Utf8.{Str, utf8_byte_length}
use watchup_v3_packages.Types.{Chunk, EnvelopeBase, PerKind}
use watchup_v3_packages.Chunker.{assemble_body, counts_of}
use watchup_v3_packages.Chunker.Each.{build_chunks-Each}
use watchup_v3_packages.Queue.State.{Options, Queue, new_queue, Env, Effect, sent}
use watchup_v3_packages.Queue.Drain.{cut, is_idle}
use watchup_v3_packages.Queue.Calls.{Event, was_restored, due_now, run}
use watchup_v3_packages.Queue.Flight.{requests}
use watchup_v3_packages.Queue.Credit.Steps.{gained_by, run-requests_bound}
use watchup_v3_packages.Queue.Sent.{Rules, SentWell}
use watchup_v3_packages.Queue.Sent.Steps.{Brings, run-IsFine}

-- What a chunk's parts have to do with each other: the body is an envelope with the chunk's own
-- key, the byte count is the body's, and the counts are those of the envelope's groups.
pub record IsEnvelope (c : Chunk) : Type 0 where
  pub groups : PerKind (List Str)
  pub base : EnvelopeBase
  pub sent_at : Str
  pub assembled : c.body ≡ assemble_body groups base c.idempotency_key sent_at
  pub measured : c.bytes ≡ utf8_byte_length c.body
  pub counted : c.counts ≡ counts_of groups

abbrev pub Waits : Options → Chunk → Type 0
Waits options c = IsEnvelope c × (c.attempts < max 1 options.max_attempts)

abbrev pub Goes : Options → Chunk → Type 0
Goes options c = IsEnvelope c × (1 ≤ c.attempts) × (c.attempts ≤ max 1 options.max_attempts)

cut-Waits : (options : Options) (env : Env) (m : ℕ) (q : Queue) → All (Waits options) (cut env m q)
unfolding cut
cut-Waits options env m q = elim (Bool-cases (is_idle q)) [
  | inl idle ↦ rw idle tt
  | inr busy ↦ rw busy (
      build_chunks-Each env.base (record { max_bytes = m; max_items = q.options.max_items })
        env.batch_id env.sent_at env.now (Waits options)
        (λ i groups. (
          record {
            groups = groups;
            base = env.base;
            sent_at = env.sent_at;
            assembled = refl;
            measured = refl;
            counted = refl;
          },
          omega arith,
        ))
        q.pending)
]

sending_rules : (options : Options) → Rules options (Waits options) (Goes options)
sending_rules options = record {
  fresh = λ env m q e. cut-Waits options env m q;
  tried = λ c w. (
    record {
      groups = w.0.groups;
      base = w.0.base;
      sent_at = w.0.sent_at;
      assembled = w.0.assembled;
      measured = w.0.measured;
      counted = w.0.counted;
    },
    omega arith,
    omega (arith, w.1),
  );
  again = λ c at g h. (
    record {
      groups = g.0.groups;
      base = g.0.base;
      sent_at = g.0.sent_at;
      assembled = g.0.assembled;
      measured = g.0.measured;
      counted = g.0.counted;
    },
    omega (arith, leb→lt options.max_attempts c.attempts h),
  );
}

-- A snapshot's chunks are envelopes that may be tried again.
abbrev pub Restores : Options → Event → Type 0
Restores options (was_restored (some s)) = All (Waits options) s.retry
Restores options other = Unit

abbrev pub Sends : Options → Effect → Type 0
Sends options (sent c) = Goes options c
Sends options other = Unit

due_now-Waits :
    (options : Options) (now : ℕ) (cs : List Chunk)
    → All (Waits options) cs
    → All (Waits options) (map (due_now now) cs)
due_now-Waits options now [] h = tt
due_now-Waits options now (c ∷ cs) h = (
  (
    record {
      groups = h.0.0.groups;
      base = h.0.0.base;
      sent_at = h.0.0.sent_at;
      assembled = h.0.0.assembled;
      measured = h.0.0.measured;
      counted = h.0.0.counted;
    },
    h.0.1,
  ),
  due_now-Waits options now cs h.1,
)

Restores-Brings :
    (options : Options) (e : Event) → Restores options e → Brings (sending_rules options) e
Restores-Brings options (was_restored (some s)) h = λ now. due_now-Waits options now s.retry h
Restores-Brings options (was_restored none) h = tt
Restores-Brings options other h = tt

SentWell-Sends :
    (options : Options) (e : Effect) → SentWell (sending_rules options) e → Sends options e
SentWell-Sends options (sent c) h = h
SentWell-Sends options other h = tt

run-Sends_each :
    (options : Options) (es : List (Env × Event))
    → All (λ e. Restores options e.1) es
    → All (Sends options) (run es (new_queue options)).1
run-Sends_each options es h =
    All-weaken (SentWell-Sends options) (run es (new_queue options)).1
      (run-IsFine (sending_rules options) es
        (All-weaken (λ e (r : Restores options e.1). Restores-Brings options e.1 r) es h)).1

-- In any history of a new queue whose snapshots hold envelopes that may be tried again, each request
-- sends an envelope that carries the chunk's own idempotency key, with the byte count and the item
-- counts of that envelope, and an attempt number between 1 and `maxAttempts` (or 1, if that is 0);
-- and there are in all at most `maxAttempts` requests (or 1) for each item that was accepted, and for
-- each item and each chunk that a snapshot brought in.
pub run-Sends :
    (options : Options) (es : List (Env × Event))
    → All (λ e. Restores options e.1) es
    → All (Sends options) (run es (new_queue options)).1
      × (requests (run es (new_queue options)).1 ≤ max 1 options.max_attempts * gained_by es)
run-Sends options es h = (run-Sends_each options es h, run-requests_bound options es)

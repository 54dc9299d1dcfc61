-- ===== src/Node/Delivery.antt =====
-- node/src/watchup.ts: what the queue of a client keeps and sends, however the client is used.
use watchup_v3_packages.Prelude.{
  ◌≤◌, arith, ℕ, ◌≡◌, refl, subst, sym, inl, inr, List, [], ◌∷◌, ◌++◌, Option, none, some,
  Bool-cases, All, All-weaken,
}
use watchup_v3_packages.Utf8.{Str}
use watchup_v3_packages.Json.{Json}
use watchup_v3_packages.Queue.State.{
  sent, pending_count, or_default, Options, Queue, Env, Effect, resolve_options, new_queue,
}
use watchup_v3_packages.Queue.Calls.{Event, started, was_restored, start, step, run}
use watchup_v3_packages.Queue.Sound.{IsSound, pending_size}
use watchup_v3_packages.Queue.Sound.Steps.{run-IsSound}
use watchup_v3_packages.Queue.Sent.Attempts.{IsEnvelope, Restores, Sends, run-Sends}
use watchup_v3_packages.Payload.{is_empty_text}
use watchup_v3_packages.Node.Context.{Scope}
use watchup_v3_packages.Node.Client.{Client, new_client, Call}
use watchup_v3_packages.Node.Config.{WatchupOptions, resolve_config, queue_options}
use watchup_v3_packages.Node.Steps.{ClientEvent, client_run}
use watchup_v3_packages.Node.Refines.{IsFresh, client_run-Asks}

-- The queue that `start` leaves.
abbrev started_queue : ℕ → Options → Queue
started_queue ms o = (start ms (new_queue o)).0

-- `start` reads nothing of its environment.
abbrev start_env : Env
start_env = record {
  now = 0;
  random = 0;
  batch_id = [];
  sent_at = [];
  base = record {
    sdk = record { name = []; version = [] };
    environment = none;
    release = none;
    project_id = none;
  };
}

All-second : (P : Effect → Type 0) (xs ys : List Effect) → All P (xs ++ ys) → All P ys
All-second P [] ys h = h
All-second P (x ∷ xs) ys h = All-second P xs ys h.1

fresh-Restores : (o : Options) (e : Env × Event) → IsFresh e.1 → Restores o e.1
fresh-Restores o (env, was_restored s) h = elim h [ ]
fresh-Restores o (env, other) h = tt

abbrev IsNew : Option Str → WatchupOptions → Option Client → Type 0
IsNew node_env options none = Unit
IsNew node_env options (some c) =
    let config = resolve_config node_env options in
    c.queue ≡ started_queue config.flush_interval (resolve_options (queue_options config))

new_client-IsNew :
    (node_env : Option Str) (options : WatchupOptions) (scopes : ℕ → Scope) (captured : List ℕ)
    → IsNew node_env options (new_client node_env options scopes captured)
unfolding new_client
new_client-IsNew node_env options scopes captured =
    elim (Bool-cases (is_empty_text options.api_key)) [ inl e ↦ rw e tt | inr e ↦ rw e refl ]

-- A history of a queue that was just started keeps the queue sound and sends envelopes only.
started_run :
    (ms : ℕ) (o : Options) (es : List (Env × Event))
    → All (λ e. IsFresh e.1) es
    → IsSound o (run es (started_queue ms o)).0 × All (Sends o) (run es (started_queue ms o)).1
unfolding run step
started_run ms o es fresh = (
  run-IsSound o ((start_env, started ms) ∷ es),
  All-second (Sends o) (start ms (new_queue o)).1 _
      (run-Sends o ((start_env, started ms) ∷ es) (tt, All-weaken (fresh-Restores o) es fresh)).0,
)

-- A request sends a whole envelope with its own key, byte count and item counts, and carries an
-- attempt number between 1 and `n`.
abbrev pub SendsWithin : ℕ → Effect → Type 0
SendsWithin n (sent c) = IsEnvelope c × (1 ≤ c.attempts) × (c.attempts ≤ n)
SendsWithin n other = Unit

Sends-SendsWithin : (o : Options) (e : Effect) → o.max_attempts ≡ 5 → Sends o e → SendsWithin 5 e
Sends-SendsWithin o (sent c) five h = (h.0, h.1, omega (arith, h.2, five))
Sends-SendsWithin o other five h = tt

-- Whatever is done with a new client: its queue holds at most the `maxQueueSize` of the options, or
-- 1000 if there is none, and its byte counter is the sum of the items' sizes; and each request sends an
-- envelope that carries the chunk's own idempotency key, with its byte count and item counts, and an
-- attempt number between 1 and 5.
pub client_run-delivery :
    (to_upper : Str → Str) (clean : Json → Option Json) (ms_text : ℕ → ℕ → Str)
    (node_env : Option Str) (options : WatchupOptions) (scopes : ℕ → Scope) (captured : List ℕ)
    (c : Client) (es : List (Call × ClientEvent))
    → new_client node_env options scopes captured ≡ some c
    → let r = client_run to_upper clean ms_text es c in
      (pending_count r.0.queue ≤ or_default options.max_queue_size 1000)
      × (r.0.queue.pending_bytes ≡ pending_size r.0.queue.pending)
      × All (SendsWithin 5) r.1
unfolding resolve_config resolve_options
client_run-delivery to_upper clean ms_text node_env options scopes captured c es made =
    let config = resolve_config node_env options in
    let o = resolve_options (queue_options config) in
    let a = client_run-Asks to_upper clean ms_text es c in
    let e =
      subst (IsNew node_env options) made (new_client-IsNew node_env options scopes captured) in
    let run_fine = started_run config.flush_interval o a.events a.allowed in
    let fine =
      subst (λ r. IsSound o r.0 × All (Sends o) r.1) a.same_out
        (subst (λ q. IsSound o (run a.events q).0 × All (Sends o) (run a.events q).1) (sym e)
          run_fine) in
    (
      fine.0.bounded,
      fine.0.counted,
      All-weaken (λ d (h : Sends o d). Sends-SendsWithin o d refl h)
          (client_run to_upper clean ms_text es c).1 fine.1,
    )

-- ===== src/Node/Refines.antt =====
-- node/src/watchup.ts: a client uses its queue only through the queue's operations.
use watchup_v3_packages.Queue.Asks.{Asks, done-Asks, step-Asks, chain-Asks, begin_shutdown-Asks}
use watchup_v3_packages.Prelude.{
  ℕ, ◌≡◌, refl, subst, inl, inr, Bool, true, false, List, [], ◌∷◌, Option, none, some, Bool-cases,
  if◌then◌else◌, not, ◌||◌, ltb,
}
use watchup_v3_packages.Utf8.{Str}
use watchup_v3_packages.Json.{Json, Fields}
use watchup_v3_packages.Types.{Kind}
use watchup_v3_packages.Flags.{FlagsBody}
use watchup_v3_packages.Queue.State.{Queue, Out, done}
use watchup_v3_packages.Queue.Calls.{
  Event, enqueued, flushed, answered, timed_out, was_restored, plain_flush, step,
}
use watchup_v3_packages.Payload.{Thrown, or_value, info}
use watchup_v3_packages.Node.Middleware.{Req}
use watchup_v3_packages.Node.Client.{
  run_with_context, Client, Call, Done, unchanged, put_user, set_user, clear_user, refresh_flags,
  flush, shutdown,
}
use watchup_v3_packages.Node.Capture.{
  submit, track, capture_error, capture_log, is_console_captured, forward_console, end_trace,
}
use watchup_v3_packages.Node.Payloads.{ErrorContext, Trace, EndOptions}
use watchup_v3_packages.Payload.Shared.{LogContext, ConsoleMethod, level_weight}
use watchup_v3_packages.Node.Request.{Request, record_request, open_request, error_middleware}
use watchup_v3_packages.Node.Steps.{
  context_opened, ClientEvent, tracked, error_captured, log_captured, console_called, trace_ended,
  request_opened, request_ended, error_forwarded, user_set, user_cleared, flags_failed, was_flushed,
  was_shut_down, flags_arrived, was_answered, retry_due, interval_due, client_step, client_run,
}

abbrev pub IsFresh : Event → Type 0
IsFresh (was_restored s) = ⊥
IsFresh other = Unit

abbrev pub queue_out : Done → Out
queue_out d = (d.0.queue, d.1)

shutdown-Asks : (call : Call) (c : Client) → Asks IsFresh c.queue (queue_out (shutdown call c))
unfolding shutdown
shutdown-Asks call c = elim (Bool-cases c.closed) [
  | inl shut ↦ rw shut (done-Asks c.queue)
  | inr open_client ↦ rw open_client (begin_shutdown-Asks call.env c.queue tt tt)
]

put_user-queue :
    (user : Option Fields) (scope : Option ℕ) (c : Client) → (put_user user scope c).queue ≡ c.queue
unfolding put_user
put_user-queue user none c = refl
put_user-queue user (some p) c = refl

refresh_flags-queue :
    (call : Call) (body : Option FlagsBody) (c : Client)
    → (refresh_flags call body c).queue ≡ c.queue
unfolding refresh_flags
refresh_flags-queue call none c = refl
refresh_flags-queue call (some body) c = refl

same_queue-Asks :
    (c d : Client) → d.queue ≡ c.queue → Asks IsFresh c.queue (queue_out (unchanged d))
same_queue-Asks c d e = subst (λ q. Asks IsFresh q (done d.queue)) e (done-Asks d.queue)

module _ (to_upper : Str → Str) (clean : Json → Option Json) (ms_text : ℕ → ℕ → Str) where
  submit-Asks :
      (call : Call) (kind : Kind) (payload : Fields) (c : Client)
      → Asks IsFresh c.queue (queue_out (submit clean ms_text call kind payload c))
  unfolding submit step
  submit-Asks call kind payload c = step-Asks call.env (enqueued kind (clean _)) c.queue tt

  -- What a test chooses between asks no more than its two branches do.
  either-Asks :
      (b : Bool) (q : Queue) (d e : Done)
      → Asks IsFresh q (queue_out d)
      → Asks IsFresh q (queue_out e)
      → Asks IsFresh q (queue_out (if b then d else e))
  either-Asks true q d e h k = h
  either-Asks false q d e h k = k

  capture_error-Asks :
      (call : Call) (thrown : Thrown) (context : ErrorContext) (c : Client)
      → Asks IsFresh c.queue (queue_out (capture_error clean ms_text call thrown context c))
  unfolding capture_error
  capture_error-Asks call thrown context c =
      either-Asks _ c.queue _ _ (done-Asks c.queue) (submit-Asks call _ _ _)

  capture_log-Asks :
      (call : Call) (message : Str) (context : LogContext) (c : Client)
      → Asks IsFresh c.queue (queue_out (capture_log clean ms_text call message context c))
  unfolding capture_log
  capture_log-Asks call message context c =
      elim (Bool-cases (c.closed || not c.config.logging.enabled)) [
        | inl off ↦ rw off (done-Asks c.queue)
        | inr on ↦
            elim (Bool-cases (
              ltb (level_weight (or_value context.level info))
                (level_weight c.config.logging.min_level))) [
                  | inl low ↦ rw (on, low) (done-Asks c.queue)
                  | inr high ↦ rw (on, high) (submit-Asks call _ _ c)
                ]
      ]

  forward_console-Asks :
      (call : Call) (method : ConsoleMethod) (message : Str) (c : Client)
      → Asks IsFresh c.queue (queue_out (forward_console clean ms_text call method message c))
  unfolding forward_console
  forward_console-Asks call method message c = elim (Bool-cases (is_console_captured c)) [
    | inl on ↦ rw on (capture_log-Asks call message _ (record c { in_console_capture = true }))
    | inr off ↦ rw off (done-Asks c.queue)
  ]

  end_trace-Asks :
      (call : Call) (now : ℕ) (opts : EndOptions) (t : Trace) (c : Client)
      → Asks IsFresh c.queue (queue_out (end_trace clean ms_text call now opts t c).1)
  unfolding end_trace
  end_trace-Asks call now opts t c = elim (Bool-cases (t.ended || c.closed)) [
    | inl e ↦ rw e (done-Asks c.queue)
    | inr e ↦ rw e (submit-Asks call _ _ c)
  ]

  record_request-Asks :
      (call : Call) (aborted : Bool) (status now : ℕ) (r : Request) (c : Client)
      → Asks IsFresh c.queue
          (queue_out (record_request to_upper clean ms_text call aborted status now r c).1)
  unfolding record_request
  record_request-Asks call aborted status now r c = elim (Bool-cases (r.recorded || c.closed)) [
    | inl e ↦ rw e (done-Asks c.queue)
    | inr e ↦ elim (Bool-cases r.sampled) [
      | inl s ↦ rw (e, s) (submit-Asks call _ _ _)
      | inr s ↦ rw (e, s) (done-Asks c.queue)
    ]
  ]

  error_middleware-Asks :
      (call : Call) (req : Req) (scope status : Option ℕ) (thrown : Option Thrown) (c : Client)
      → Asks IsFresh c.queue
          (queue_out (error_middleware to_upper clean ms_text call req scope status thrown c))
  unfolding error_middleware
  error_middleware-Asks call req scope status none c = done-Asks c.queue
  error_middleware-Asks call req scope status (some thrown) c = capture_error-Asks call thrown _ c

  pub client_step-Asks :
      (call : Call) (e : ClientEvent) (c : Client)
      → Asks IsFresh c.queue (queue_out (client_step to_upper clean ms_text call e c))
  unfolding client_step run_with_context track open_request flush step set_user clear_user
  client_step-Asks call (tracked name properties) c =
      either-Asks _ c.queue _ _ (done-Asks c.queue) (submit-Asks call _ _ c)
  client_step-Asks call (error_captured thrown context) c = capture_error-Asks call thrown context c
  client_step-Asks call (log_captured message context) c = capture_log-Asks call message context c
  client_step-Asks call (console_called method message) c =
      forward_console-Asks call method message c
  client_step-Asks call (trace_ended now opts t) c = end_trace-Asks call now opts t c
  client_step-Asks call (request_opened req p fresh_id random start_) c = done-Asks c.queue
  client_step-Asks call (context_opened given fresh_id p) c =
      same_queue-Asks c (run_with_context given fresh_id p c) refl
  client_step-Asks call (request_ended aborted status now r) c =
      record_request-Asks call aborted status now r c
  client_step-Asks call (error_forwarded req scope status thrown) c =
      error_middleware-Asks call req scope status thrown c
  client_step-Asks call (user_set user) c =
      same_queue-Asks c (set_user call user c) (put_user-queue (some user) call.scope c)
  client_step-Asks call user_cleared c =
      same_queue-Asks c (clear_user call c) (put_user-queue none call.scope c)
  client_step-Asks call flags_failed c =
      same_queue-Asks c (refresh_flags call none c) (refresh_flags-queue call none c)
  client_step-Asks call was_flushed c = step-Asks call.env (flushed plain_flush) c.queue tt
  client_step-Asks call was_shut_down c = shutdown-Asks call c
  client_step-Asks call (flags_arrived body) c =
      same_queue-Asks c (refresh_flags call (some body) c) (refresh_flags-queue call (some body) c)
  client_step-Asks call (was_answered res) c = step-Asks call.env (answered res) c.queue tt
  client_step-Asks call retry_due c = step-Asks call.env timed_out c.queue tt
  client_step-Asks call interval_due c = step-Asks call.env (flushed plain_flush) c.queue tt

  -- Whatever happens to a client, its queue goes through a history of the queue's own operations that
  -- restores no snapshot, and what the client does outside is what that history does.
  pub client_run-Asks :
      (es : List (Call × ClientEvent)) (c : Client)
      → Asks IsFresh c.queue (queue_out (client_run to_upper clean ms_text es c))
  unfolding client_run
  client_run-Asks [] c = done-Asks c.queue
  client_run-Asks ((call, e) ∷ es) c =
      let first = client_step to_upper clean ms_text call e c in
      chain-Asks c.queue (queue_out first) _ (client_step-Asks call e c)
        (client_run-Asks es first.0)

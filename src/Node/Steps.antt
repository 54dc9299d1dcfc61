-- ===== src/Node/Steps.antt =====
-- node/src/watchup.ts: what can happen to a client, and what it asks of its queue.
use watchup_v3_packages.Prelude.{ℕ, Bool, List, [], ◌∷◌, ◌++◌, Option, none, some}
use watchup_v3_packages.Utf8.{Str}
use watchup_v3_packages.Json.{Json, Fields}
use watchup_v3_packages.Flags.{FlagsBody}
use watchup_v3_packages.Queue.Calls.{flushed, answered, timed_out, plain_flush, step as queue_step}
use watchup_v3_packages.Types.{SendResult}
use watchup_v3_packages.Payload.{Thrown}
use watchup_v3_packages.Node.Middleware.{Req}
use watchup_v3_packages.Node.Client.{
  GivenScope, run_with_context, Client, Call, Done, unchanged, with_queue, set_user, clear_user,
  refresh_flags, flush, shutdown,
}
use watchup_v3_packages.Node.Capture.{track, capture_error, capture_log, forward_console, end_trace}
use watchup_v3_packages.Node.Payloads.{ErrorContext, Trace, EndOptions}
use watchup_v3_packages.Payload.Shared.{LogContext, ConsoleMethod}
use watchup_v3_packages.Node.Request.{Request, record_request, open_request, error_middleware}

-- What can happen to a client. `was_answered` and `retry_due` are the queue's own callbacks, and
-- `interval_due` its flush interval.
pub data ClientEvent : Type 0 where
  tracked : Str → Fields → ClientEvent
  error_captured : Thrown → ErrorContext → ClientEvent
  log_captured : Str → LogContext → ClientEvent
  console_called : ConsoleMethod → Str → ClientEvent
  trace_ended : ℕ → EndOptions → Trace → ClientEvent
  request_opened : Req → ℕ → Str → ℕ → ℕ → ClientEvent
  context_opened : GivenScope → Str → ℕ → ClientEvent
  request_ended : Bool → ℕ → ℕ → Request → ClientEvent
  error_forwarded : Req → Option ℕ → Option ℕ → Option Thrown → ClientEvent
  user_set : Fields → ClientEvent
  user_cleared flags_failed was_flushed was_shut_down : ClientEvent
  flags_arrived : FlagsBody → ClientEvent
  was_answered : SendResult → ClientEvent
  retry_due interval_due : ClientEvent

module _ (to_upper : Str → Str) (clean : Json → Option Json) (ms_text : ℕ → ℕ → Str) where
  unfoldable pub client_step : Call → ClientEvent → Client → Done
  client_step call (tracked name properties) c = track clean ms_text call name properties c
  client_step call (error_captured thrown context) c =
      capture_error clean ms_text call thrown context c
  client_step call (log_captured message context) c =
      capture_log clean ms_text call message context c
  client_step call (console_called method message) c =
      forward_console clean ms_text call method message c
  client_step call (trace_ended now opts t) c = (end_trace clean ms_text call now opts t c).1
  client_step call (request_opened req p fresh_id random start) c =
      unchanged (open_request to_upper call req p fresh_id random start c).0
  client_step call (context_opened given fresh_id p) c =
      unchanged (run_with_context given fresh_id p c)
  client_step call (request_ended aborted status now r) c =
      (record_request to_upper clean ms_text call aborted status now r c).1
  client_step call (error_forwarded req scope status thrown) c =
      error_middleware to_upper clean ms_text call req scope status thrown c
  client_step call (user_set user) c = unchanged (set_user call user c)
  client_step call user_cleared c = unchanged (clear_user call c)
  client_step call flags_failed c = unchanged (refresh_flags call none c)
  client_step call was_flushed c = flush call c
  client_step call was_shut_down c = shutdown call c
  client_step call (flags_arrived body) c = unchanged (refresh_flags call (some body) c)
  client_step call (was_answered res) c = with_queue c (queue_step call.env (answered res) c.queue)
  client_step call retry_due c = with_queue c (queue_step call.env timed_out c.queue)
  client_step call interval_due c = with_queue c (queue_step call.env (flushed plain_flush) c.queue)

  unfoldable pub client_run : List (Call × ClientEvent) → Client → Done
  client_run [] c = unchanged c
  client_run ((call, e) ∷ es) c =
      let o = client_step call e c in let rest = client_run es o.0 in (rest.0, o.1 ++ rest.1)

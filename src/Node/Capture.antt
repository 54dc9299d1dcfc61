-- ===== src/Node/Capture.antt =====
-- node/src/watchup.ts: what is captured, from the caller's arguments to the queue.
pub mod Laws
use watchup_v3_packages.Node.Payloads.{
  EndOptions, ErrorContext, Outcome, QueryOptions, Trace, error_context, error_payload,
  event_payload, log_payload, outcome_options, query_options, release_field, returned, scope_route,
  start_trace, threw,
}
use watchup_v3_packages.Payload.Shared.{
  ConsoleMethod, LogContext, add_captured, console_context, console_debug, console_error,
  console_info, console_level, console_log, console_warn, default_code, is_captured, level_weight,
  method_name, text_json,
}
use watchup_v3_packages.Prelude.{
  ℕ, ◌+◌, ◌++◌, ◌==◌, ◌||◌, ◌&&◌, not, Bool, true, false, List, [], ◌∷◌, ltb, if◌then◌else◌, Option,
  none, some, any,
}
use watchup_v3_packages.Utf8.{Str, units, decimal}
use watchup_v3_packages.Json.{Json, bool, number, string, object, Fields, end, field}
use watchup_v3_packages.Types.{Kind, errors, traces, events}
use watchup_v3_packages.Queue.Calls.{enqueue}
use watchup_v3_packages.Payload.{
  spread, join_fields, single, if_text, if_object, if_defined, if_true, or_other, or_value, or_text,
  is_empty_text, Status, ok, warn, err, status_text, LogLevel, debug, info, warning, error,
  critical, level_text, Thrown,
}
use watchup_v3_packages.Node.Context.{Scope}
use watchup_v3_packages.Node.Client.{
  Client, Call, Done, unchanged, with_queue, current_user, base_context, scope_user,
}
use watchup_v3_packages.Node.Config.{Config}

-- The methods are wrapped when the client is made, and no longer active once it is shut down.
abbrev pub is_console_captured : Client → Bool
is_console_captured c =
    c.config.logging.enabled
    && c.config.logging.capture_console
    && not c.closed
    && not c.in_console_capture

-- `clean` is `normalize` with the client's keys, and `ms_text` prints the rounded duration between
-- two times of the performance clock.
module _ (clean : Json → Option Json) (ms_text : ℕ → ℕ → Str) where
  unfoldable pub submit : Call → Kind → Fields → Client → Done
  submit call kind payload c = with_queue c (enqueue call.env kind (clean (object payload)) c.queue)

  unfoldable pub track : Call → Str → Fields → Client → Done
  track call name properties c =
      if is_empty_text name || c.closed
      then unchanged c
      else submit call events (event_payload call name properties c) c

  unfoldable pub capture_error : Call → Thrown → ErrorContext → Client → Done
  capture_error call thrown context c =
      if c.closed || is_captured thrown.identity c.captured
      then unchanged c
      else let seen = record c { captured = add_captured thrown.identity c.captured } in
        submit call errors (error_payload call thrown context seen) seen

  unfoldable pub capture_log : Call → Str → LogContext → Client → Done
  capture_log call message context c =
      if c.closed || not c.config.logging.enabled
      then unchanged c
      else if ltb (level_weight (or_value context.level info))
          (level_weight c.config.logging.min_level)
      then unchanged c
      else submit call events (log_payload call message context c) c

  -- A wrapped method after the original one has run; `message` is `consoleMessage(args)`.
  unfoldable pub forward_console : Call → ConsoleMethod → Str → Client → Done
  forward_console call method message c =
      let o =
        capture_log call message (console_context method)
          (record c { in_console_capture = true }) in
      if is_console_captured c
      then (record o.0 { in_console_capture = false }, o.1)
      else unchanged c

  unfoldable pub trace_payload : Trace → ℕ → EndOptions → Client → Fields
  trace_payload t now opts c =
      let status = or_value opts.status ok in
      field (units "span") (string t.span) (
        field (units "type") (string t.type) (
          field (units "ms") (number (ms_text t.start now)) (
            field (units "status_code")
              (number (decimal (or_value opts.status_code (default_code status))))
              (field (units "status") (string (status_text status)) (
                field (units "timestamp") (string t.started_at) (
                  field (units "environment") (string c.config.environment) (
                    join_fields (release_field c) (
                      field (units "meta")
                        (object (
                          spread (spread opts.meta (base_context t.scope c))
                            (if_text (units "parent_route") (scope_route t.scope c))))
                        (if_object (units "user") t.user)))))))))

  -- The function that `startTrace` returns; its own state is part of the result.
  unfoldable pub end_trace : Call → ℕ → EndOptions → Trace → Client → Trace × Done
  end_trace call now opts t c =
      if t.ended || c.closed
      then (t, unchanged c)
      else (record t { ended = true }, submit call traces (trace_payload t now opts c) c)

  -- `trace` from the end of the function on; the outcome is passed on.
  unfoldable pub finish_trace : Call → ℕ → Outcome → Trace → Client → Trace × Done
  finish_trace call now outcome t c = end_trace call now (outcome_options outcome) t c

  -- `traceQuery` from the end of the query on, `elapsed` whole milliseconds after its start.
  unfoldable pub finish_query :
      Call → ℕ → ℕ → QueryOptions → Outcome → Trace → Client → Trace × Done
  finish_query call now elapsed options outcome t c =
      end_trace call now (query_options elapsed options outcome) t c

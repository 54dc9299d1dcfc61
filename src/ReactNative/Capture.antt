-- ===== src/ReactNative/Capture.antt =====
-- react-native/src/client.ts: what is captured, from the caller's arguments to the queue.
use watchup_v3_packages.Prelude.{
  ℕ, ◌++◌, ◌||◌, ◌&&◌, not, Bool, true, false, ltb, if◌then◌else◌, Option, none, some, same,
}
use watchup_v3_packages.Utf8.{Str, units, decimal}
use watchup_v3_packages.Json.{Json, number, string, object, Fields, field}
use watchup_v3_packages.Types.{Kind, errors, traces, events}
use watchup_v3_packages.Queue.Calls.{enqueue}
use watchup_v3_packages.Payload.{
  spread, join_fields, single, if_text, if_object, if_defined, if_true, or_value, or_text,
  is_empty_text, Status, ok, status_text, info, level_text, Thrown,
}
use watchup_v3_packages.Payload.Shared.{
  level_weight, LogContext, text_json, is_captured, add_captured, default_code, ConsoleMethod,
  console_context,
}
use watchup_v3_packages.ReactNative.Client.{
  NativeClient, NativeCall, NativeDone, unaltered, with_native_queue, native_route, native_context,
}

-- The context argument of `captureError`.
pub record NativeErrorContext : Type 0 where
  pub route : Option Str
  pub level : Option Str
  pub rest : Fields

-- What `startTrace` keeps for the function that it returns.
pub record NativeTrace : Type 0 where
  pub span : Str
  pub type : Str
  pub start : ℕ
  pub started_at : Str
  pub route : Str
  pub user : Option Fields
  pub ended : Bool

pub record NativeEndOptions : Type 0 where
  pub status : Option Status
  pub meta : Fields

abbrev pub device_field : NativeCall → NativeClient → Fields
device_field call c =
    if_true c.config.logging.include_device_context (single (units "device") (object call.device))

abbrev pub route_and_user : Str → Option Fields → Fields
route_and_user route user = field (units "route") (string route) (if_object (units "user") user)

unfoldable pub native_event_payload : NativeCall → Str → Fields → NativeClient → Fields
native_event_payload call name properties c = field (units "name") (string name) (
    field (units "properties")
      (object (
        spread (join_fields (native_context c) (route_and_user (native_route c) c.user))
          properties))
      (single (units "occurred_at") (string call.iso_now)))

unfoldable pub native_log_payload : NativeCall → Str → LogContext → NativeClient → Fields
native_log_payload call message context c =
    let level = level_text (or_value context.level info) in
    field (units "name") (string (units "log." ++ level)) (
      field (units "properties")
        (object (
          spread context.rest (
            field (units "message") (string message) (
              field (units "level") (string level) (
                join_fields (native_context c) (
                  join_fields (route_and_user (or_value context.route (native_route c)) c.user)
                    (device_field call c)))))))
        (single (units "occurred_at") (string call.iso_now)))

unfoldable pub native_error_payload :
    NativeCall → Thrown → NativeErrorContext → NativeClient → Fields
native_error_payload call thrown context c =
    field (units "message") (string (or_text thrown.message thrown.as_text)) (
      field (units "type") (string (or_text thrown.name (units "Error"))) (
        field (units "level") (string (or_value context.level (units "error"))) (
          join_fields (if_defined (units "stack") (text_json thrown.stack)) (
            field (units "route") (string (or_value context.route (native_route c))) (
              field (units "context")
                (object
                  (spread context.rest (join_fields (native_context c) (device_field call c))))
                (field (units "timestamp") (string call.iso_now) (
                  field (units "environment") (string c.config.environment) (
                    join_fields (if_text (units "release") (some c.config.release))
                      (if_object (units "user") c.user)))))))))

unfoldable pub start_native_trace : NativeCall → Str → Option Str → ℕ → NativeClient → NativeTrace
start_native_trace call span type start c = record {
  span = span;
  type = or_value type (units "custom");
  start = start;
  started_at = call.iso_now;
  route = native_route c;
  user = c.user;
  ended = false;
}

-- `clean` is `normalize` with the client's keys, and `ms_text` prints the time between two readings of
-- the clock.
module _ (clean : Json → Option Json) (ms_text : ℕ → ℕ → Str) where
  unfoldable pub submit_native : NativeCall → Kind → Fields → NativeClient → NativeDone
  submit_native call kind payload c =
      with_native_queue c (enqueue call.env kind (clean (object payload)) c.queue)

  unfoldable pub track_native : NativeCall → Str → Fields → NativeClient → NativeDone
  track_native call name properties c =
      if is_empty_text name || c.closed
      then unaltered c
      else submit_native call events (native_event_payload call name properties c) c

  abbrev pub same_screen : Str → Option Str → Bool
  same_screen name none = false
  same_screen name (some screen) = same screen name

  abbrev pub screen_fields : Str → Option Str → Option Fields → Fields
  screen_fields name previous params =
      field (units "screen") (string name) (
        join_fields (if_text (units "previous_screen") previous)
          (if_object (units "params") params))

  unfoldable pub set_screen : NativeCall → Str → Option Fields → NativeClient → NativeDone
  set_screen call name params c =
      if is_empty_text name || same_screen name c.screen
      then unaltered c
      else track_native call (units "screen.view") (screen_fields name c.screen params)
          (record c { screen = some name })

  unfoldable pub log_native : NativeCall → Str → LogContext → NativeClient → NativeDone
  log_native call message context c =
      if c.closed || not c.config.logging.enabled
      then unaltered c
      else if ltb (level_weight (or_value context.level info))
          (level_weight c.config.logging.min_level)
      then unaltered c
      else submit_native call events (native_log_payload call message context c) c

  unfoldable pub error_native : NativeCall → Thrown → NativeErrorContext → NativeClient → NativeDone
  error_native call thrown context c =
      if c.closed || is_captured thrown.identity c.captured
      then unaltered c
      else let seen = record c { captured = add_captured thrown.identity c.captured } in
        submit_native call errors (native_error_payload call thrown context seen) seen

  unfoldable pub native_trace_payload : NativeTrace → ℕ → NativeEndOptions → NativeClient → Fields
  native_trace_payload t now opts c =
      let status = or_value opts.status ok in
      field (units "span") (string t.span) (
        field (units "type") (string t.type) (
          field (units "ms") (number (ms_text t.start now)) (
            field (units "status_code") (number (decimal (default_code status))) (
              field (units "status") (string (status_text status)) (
                field (units "timestamp") (string t.started_at) (
                  field (units "environment") (string c.config.environment) (
                    join_fields (if_text (units "release") (some c.config.release)) (
                      field (units "meta")
                        (object (
                          spread (spread opts.meta (native_context c))
                            (single (units "route") (string t.route))))
                        (if_object (units "user") t.user)))))))))

  -- The function that `startTrace` returns; its own state is part of the result.
  unfoldable pub end_native_trace :
      NativeCall → ℕ → NativeEndOptions → NativeTrace → NativeClient → NativeTrace × NativeDone
  end_native_trace call now opts t c = if t.ended || c.closed then (t, unaltered c) else (
    record t { ended = true },
    submit_native call traces (native_trace_payload t now opts c) c,
  )

  -- A wrapped method of the console after the original one has run.
  unfoldable pub console_native : NativeCall → ConsoleMethod → Str → NativeClient → NativeDone
  console_native call method message c =
      let o =
        log_native call message (console_context method) (record c { in_console_capture = true }) in
      if c.config.logging.enabled
        && c.config.logging.capture_console
        && not c.closed
        && not c.in_console_capture
      then (record o.0 { in_console_capture = false }, o.1)
      else unaltered c

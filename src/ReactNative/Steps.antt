-- ===== src/ReactNative/Steps.antt =====
-- react-native/src/client.ts: what can happen to a client.
use watchup_v3_packages.Prelude.{ℕ, Bool, List, [], ◌∷◌, if◌then◌else◌, Option}
use watchup_v3_packages.Utf8.{Str}
use watchup_v3_packages.Json.{Json, Fields}
use watchup_v3_packages.Types.{SendResult}
use watchup_v3_packages.Queue.Calls.{answered, timed_out, step as queue_step}
use watchup_v3_packages.Payload.{Thrown}
use watchup_v3_packages.Payload.Shared.{LogContext, ConsoleMethod}
use watchup_v3_packages.ReactNative.Client.{
  StoredText, NativeClient, NativeCall, NativeDone, unaltered, then_native, with_native_queue,
  persist_now, persist_due, restore_stored, flush_native, net_changed, shutdown_native,
}
use watchup_v3_packages.ReactNative.Capture.{
  NativeErrorContext, NativeTrace, NativeEndOptions, track_native, set_screen, log_native,
  error_native, end_native_trace, console_native,
}

-- What can happen to a client. `persisted` is the rest of `flush`, of `shutdown`, of a resume and of a
-- fatal error; the app's state calls `flush`.
pub data NativeEvent : Type 0 where
  app_tracked : Str → Fields → NativeEvent
  screen_set : Str → Option Fields → NativeEvent
  app_logged : Str → LogContext → NativeEvent
  app_error : Thrown → NativeErrorContext → NativeEvent
  app_trace_ended : ℕ → NativeEndOptions → NativeTrace → NativeEvent
  app_console : ConsoleMethod → Str → NativeEvent
  app_user : Option Fields → NativeEvent
  was_found : StoredText → NativeEvent
  app_flushed persisted persist_timer_fired app_interval app_retry app_shut_down : NativeEvent
  app_answered : SendResult → NativeEvent
  network : Bool → Bool → NativeEvent

-- `setUser` and `clearUser`
unfoldable pub put_native_user : Option Fields → NativeClient → NativeClient
put_native_user user c = record c { user = user }

-- `shutdown` stops the interval and the listeners.
abbrev pub unless_closed : NativeClient → NativeDone → NativeDone
unless_closed c d = if c.closed then unaltered c else d

module _ (clean : Json → Option Json) (ms_text : ℕ → ℕ → Str) where
  unfoldable pub native_step : NativeCall → NativeEvent → NativeClient → NativeDone
  native_step call (app_tracked name properties) c =
      track_native clean ms_text call name properties c
  native_step call (screen_set name params) c = set_screen clean ms_text call name params c
  native_step call (app_logged message context) c = log_native clean ms_text call message context c
  native_step call (app_error thrown context) c = error_native clean ms_text call thrown context c
  native_step call (app_trace_ended now opts t) c =
      (end_native_trace clean ms_text call now opts t c).1
  native_step call (app_console method message) c =
      console_native clean ms_text call method message c
  native_step call (app_user user) c = unaltered (put_native_user user c)
  native_step call (was_found found) c = restore_stored call.env found c
  native_step call app_flushed c = flush_native call.env c
  native_step call persisted c = persist_now c
  native_step call persist_timer_fired c = persist_due c
  native_step call app_interval c = unless_closed c (flush_native call.env c)
  native_step call app_retry c = with_native_queue c (queue_step call.env timed_out c.queue)
  native_step call app_shut_down c = shutdown_native call.env c
  native_step call (app_answered res) c =
      with_native_queue c (queue_step call.env (answered res) c.queue)
  native_step call (network is_connected is_reachable) c =
      unless_closed c (net_changed call.env is_connected is_reachable c)

  unfoldable pub native_run : List (NativeCall × NativeEvent) → NativeClient → NativeDone
  native_run [] c = unaltered c
  native_run ((call, e) ∷ es) c = then_native (native_step call e c) (native_run es)

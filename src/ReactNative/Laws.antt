-- ===== src/ReactNative/Laws.antt =====
-- react-native/src/client.ts: every history of a client is one of its queue.
use watchup_v3_packages.Prelude.{
  ℕ, inl, inr, Bool, true, false, not, List, [], ◌∷◌, Option, some, Bool-cases, if◌then◌else◌, ◌&&◌,
  ◌||◌, ltb, All,
}
use watchup_v3_packages.Utf8.{Str, units}
use watchup_v3_packages.Json.{Json, Fields}
use watchup_v3_packages.Types.{events, errors, traces}
use watchup_v3_packages.Queue.State.{Env}
use watchup_v3_packages.Queue.Calls.{
  Event, answered, timed_out, was_paused, resumed, was_restored, step, pause, resume,
}
use watchup_v3_packages.Queue.Asks.{Asks, done-Asks, step-Asks}
use watchup_v3_packages.Queue.Paused.{IsNotResumed}
use watchup_v3_packages.Payload.{Thrown, is_empty_text, or_value, info}
use watchup_v3_packages.Payload.Shared.{
  LogContext, ConsoleMethod, console_context, level_weight, is_captured, add_captured,
}
use watchup_v3_packages.ReactNative.Client.{
  StoredText, no_text, corrupt_text, snapshot_text, found_text, NativeClient, NativeCall, unaltered,
  with_native_queue, persist_due, restore_stored, flush_native, net_changed,
}
use watchup_v3_packages.ReactNative.Capture.{
  NativeErrorContext, NativeTrace, NativeEndOptions, submit_native, native_event_payload,
  native_error_payload, track_native, set_screen, same_screen, log_native, error_native,
  end_native_trace, console_native,
}
use watchup_v3_packages.ReactNative.Steps.{
  NativeEvent, app_tracked, screen_set, app_logged, app_error, app_trace_ended, app_console,
  app_user, was_found, app_flushed, persisted, persist_timer_fired, app_interval, app_retry,
  app_shut_down, app_answered, network, put_native_user, native_step, native_run,
}
use watchup_v3_packages.ReactNative.Refines.{
  queue_effects, native_out, Resumes, unaltered-Asks, either-Asks, with_native_queue-Asks,
  then_native-Asks, persist_now-Asks, flush_native-Asks, shutdown_native-Asks, submit_native-Asks,
}

module _ (P : Event → Type 0) (others : (e : Event) → IsNotResumed e → P e) where
  going_off-Asks :
      (env : Env) (c : NativeClient)
      → Asks P c.queue (
          native_out (
            if c.online
            then with_native_queue (record c { online = false }) (pause c.queue)
            else unaltered c))
  unfolding step
  going_off-Asks env c =
      let off = record c { online = false } in
      either-Asks c.online c.queue (with_native_queue off (pause c.queue)) (unaltered c)
        (with_native_queue-Asks c.queue off (pause c.queue)
          (step-Asks env was_paused c.queue (others was_paused tt)))
        (unaltered-Asks c)

  found_text-Asks :
      (env : Env) (found : StoredText) (c : NativeClient)
      → Asks P c.queue (native_out (found_text env found c))
  unfolding queue_effects step
  found_text-Asks env no_text c = done-Asks c.queue
  found_text-Asks env corrupt_text c = done-Asks c.queue
  found_text-Asks env (snapshot_text s) c =
      step-Asks env (was_restored (some s)) c.queue (others (was_restored (some s)) tt)

  restore_stored-Asks :
      (env : Env) (found : StoredText) (c : NativeClient)
      → Asks P c.queue (native_out (restore_stored env found c))
  unfolding restore_stored
  restore_stored-Asks env found c =
      either-Asks (not c.has_storage) c.queue (unaltered c) (found_text env found c)
        (unaltered-Asks c) (found_text-Asks env found c)

  net_changed-Asks :
      (env : Env) (a b : Bool) (c : NativeClient)
      → Resumes P (network a b)
      → Asks P c.queue (native_out (net_changed env a b c))
  unfolding net_changed step
  net_changed-Asks env true true c r =
      let on = record c { online = true } in
      either-Asks c.online c.queue (unaltered c) (with_native_queue on (resume env c.queue))
        (unaltered-Asks c)
        (with_native_queue-Asks c.queue on (resume env c.queue) (step-Asks env resumed c.queue r))
  net_changed-Asks env true false c r = going_off-Asks env c
  net_changed-Asks env false b c r = going_off-Asks env c

  module _ (clean : Json → Option Json) (ms_text : ℕ → ℕ → Str) where
    track_native-Asks :
        (call : NativeCall) (name : Str) (properties : Fields) (c : NativeClient)
        → Asks P c.queue (native_out (track_native clean ms_text call name properties c))
    unfolding track_native
    track_native-Asks call name properties c =
        either-Asks (is_empty_text name || c.closed) c.queue (unaltered c)
          (submit_native clean ms_text call events (native_event_payload call name properties c) c)
          (unaltered-Asks c) (submit_native-Asks P others clean ms_text call events _ c)

    set_screen-Asks :
        (call : NativeCall) (name : Str) (params : Option Fields) (c : NativeClient)
        → Asks P c.queue (native_out (set_screen clean ms_text call name params c))
    unfolding set_screen
    set_screen-Asks call name params c =
        let viewed = units "screen.view" in
        let shown = record c { screen = some name } in
        elim (Bool-cases (is_empty_text name || same_screen clean ms_text name c.screen)) [
          | inl e ↦ rw e (unaltered-Asks c)
          | inr e ↦ rw e (track_native-Asks call viewed _ shown)
        ]

    log_native-Asks :
        (call : NativeCall) (message : Str) (context : LogContext) (c : NativeClient)
        → Asks P c.queue (native_out (log_native clean ms_text call message context c))
    unfolding log_native
    log_native-Asks call message context c =
        let low =
          ltb (level_weight (or_value context.level info))
            (level_weight c.config.logging.min_level) in
        elim (Bool-cases (c.closed || not c.config.logging.enabled)) [
          | inl e ↦ rw e (unaltered-Asks c)
          | inr e ↦ elim (Bool-cases low) [
            | inl l ↦ rw (e, l) (unaltered-Asks c)
            | inr l ↦ rw (e, l) (submit_native-Asks P others clean ms_text call events _ c)
          ]
        ]

    error_native-Asks :
        (call : NativeCall) (thrown : Thrown) (context : NativeErrorContext) (c : NativeClient)
        → Asks P c.queue (native_out (error_native clean ms_text call thrown context c))
    unfolding error_native
    error_native-Asks call thrown context c =
        let seen = record c { captured = add_captured thrown.identity c.captured } in
        either-Asks (c.closed || is_captured thrown.identity c.captured) c.queue (unaltered c)
          (submit_native clean ms_text call errors (native_error_payload call thrown context seen)
            seen)
          (unaltered-Asks c) (submit_native-Asks P others clean ms_text call errors _ seen)

    end_native_trace-Asks :
        (call : NativeCall) (now : ℕ) (opts : NativeEndOptions) (t : NativeTrace) (c : NativeClient)
        → Asks P c.queue (native_out (end_native_trace clean ms_text call now opts t c).1)
    unfolding end_native_trace
    end_native_trace-Asks call now opts t c = elim (Bool-cases (t.ended || c.closed)) [
      | inl e ↦ rw e (unaltered-Asks c)
      | inr e ↦ rw e (submit_native-Asks P others clean ms_text call traces _ c)
    ]

    console_native-Asks :
        (call : NativeCall) (method : ConsoleMethod) (message : Str) (c : NativeClient)
        → Asks P c.queue (native_out (console_native clean ms_text call method message c))
    unfolding console_native
    console_native-Asks call method message c =
        let o =
          log_native clean ms_text call message (console_context method)
            (record c { in_console_capture = true }) in
        either-Asks
          (c.config.logging.enabled
            && c.config.logging.capture_console
            && not c.closed
            && not c.in_console_capture)
          c.queue (record o.0 { in_console_capture = false }, o.1) (unaltered c)
          (log_native-Asks call message (console_context method)
            (record c { in_console_capture = true }))
          (unaltered-Asks c)

    native_step-Asks :
        (call : NativeCall) (e : NativeEvent) (c : NativeClient)
        → Resumes P e
        → Asks P c.queue (native_out (native_step clean ms_text call e c))
    unfolding native_step persist_due restore_stored put_native_user step queue_effects
    native_step-Asks call (app_tracked name properties) c r =
        track_native-Asks call name properties c
    native_step-Asks call (screen_set name params) c r = set_screen-Asks call name params c
    native_step-Asks call (app_logged message context) c r = log_native-Asks call message context c
    native_step-Asks call (app_error thrown context) c r = error_native-Asks call thrown context c
    native_step-Asks call (app_trace_ended now opts t) c r = end_native_trace-Asks call now opts t c
    native_step-Asks call (app_console method message) c r =
        console_native-Asks call method message c
    native_step-Asks call (app_user user) c r = done-Asks c.queue
    native_step-Asks call (was_found found) c r = restore_stored-Asks call.env found c
    native_step-Asks call app_flushed c r = flush_native-Asks P others call.env c
    native_step-Asks call persisted c r = persist_now-Asks P others c
    native_step-Asks call persist_timer_fired c r =
        persist_now-Asks P others (record c { persist_timer = false })
    native_step-Asks call app_interval c r =
        either-Asks c.closed c.queue (unaltered c) (flush_native call.env c) (unaltered-Asks c)
          (flush_native-Asks P others call.env c)
    native_step-Asks call app_retry c r =
        with_native_queue-Asks c.queue c (step call.env timed_out c.queue)
          (step-Asks call.env timed_out c.queue (others timed_out tt))
    native_step-Asks call app_shut_down c r = shutdown_native-Asks P others call.env c
    native_step-Asks call (app_answered res) c r =
        with_native_queue-Asks c.queue c (step call.env (answered res) c.queue)
          (step-Asks call.env (answered res) c.queue (others (answered res) tt))
    native_step-Asks call (network a b) c r =
        either-Asks c.closed c.queue (unaltered c) (net_changed call.env a b c) (unaltered-Asks c)
          (net_changed-Asks call.env a b c r)

    pub native_run-Asks :
        (es : List (NativeCall × NativeEvent)) (c : NativeClient)
        → All (λ e. Resumes P e.1) es
        → Asks P c.queue (native_out (native_run clean ms_text es c))
    unfolding native_run
    native_run-Asks [] c r = unaltered-Asks c
    native_run-Asks ((call, e) ∷ es) c r =
        let first = native_step clean ms_text call e c in
        then_native-Asks c.queue first (native_run clean ms_text es) (native_step-Asks call e c r.0)
          (native_run-Asks es first.0 r.1)

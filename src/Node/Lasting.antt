-- ===== src/Node/Lasting.antt =====
-- node/src/watchup.ts: what stays so for good: a client that was shut down, and the errors that were
-- reported.
use watchup_v3_packages.Prelude.{
  ℕ, ◌≡◌, refl, sym, ap, ◌∙◌, inl, inr, Bool, true, false, List, [], ◌∷◌, Option, none, some,
  Bool-cases, ◌||◌, ◌==◌, not, any, ltb, if◌then◌else◌,
}
use watchup_v3_packages.Utf8.{Str}
use watchup_v3_packages.Json.{Json, Fields}
use watchup_v3_packages.Flags.{FlagsBody}
use watchup_v3_packages.Queue.Calls.{begin_shutdown}
use watchup_v3_packages.Types.{Kind, errors}
use watchup_v3_packages.Payload.{Thrown, or_value, info}
use watchup_v3_packages.Payload.Shared.{
  LogContext, ConsoleMethod, level_weight, is_captured, add_captured,
}
use watchup_v3_packages.Node.Middleware.{Req}
use watchup_v3_packages.Node.Client.{
  Client, Call, Done, unchanged, with_queue, put_user, set_user, clear_user, run_with_context,
  refresh_flags, flush, shutdown,
}
use watchup_v3_packages.Node.Payloads.{ErrorContext, Trace, EndOptions, error_payload}
use watchup_v3_packages.Node.Capture.{
  submit, track, capture_error, capture_log, is_console_captured, forward_console, end_trace,
}
use watchup_v3_packages.Node.Capture.Laws.{captures_closed, seen_once, capture_error-seen}
use watchup_v3_packages.Node.Request.{Request, record_request, open_request, error_middleware}
use watchup_v3_packages.Node.Steps.{
  ClientEvent, tracked, error_captured, log_captured, console_called, trace_ended, request_opened,
  context_opened, request_ended, error_forwarded, user_set, user_cleared, flags_failed, was_flushed,
  was_shut_down, flags_arrived, was_answered, retry_due, interval_due, client_step, client_run,
}

-- A client that is closed stays closed, and what was captured stays so.
record IsLater (c d : Client) : Type 0 where
  shut : c.closed ≡ true → d.closed ≡ true
  seen : (p : ℕ) → is_captured (some p) c.captured ≡ true → is_captured (some p) d.captured ≡ true

same-IsLater : (c d : Client) → d.closed ≡ c.closed → d.captured ≡ c.captured → IsLater c d
same-IsLater c d e f = record { shut = λ h. e ∙ h; seen = λ p h. ap (is_captured (some p)) f ∙ h }

-- A test between two parts.
either-IsLater :
    (b : Bool) (c : Client) (d e : Done)
    → IsLater c d.0
    → IsLater c e.0
    → IsLater c (if b then d else e).0
either-IsLater true c d e h k = h
either-IsLater false c d e h k = k

IsLater-trans : (c d e : Client) → IsLater c d → IsLater d e → IsLater c e
IsLater-trans c d e h k = record {
  shut = λ s. k.shut (h.shut s);
  seen = λ p s. k.seen p (h.seen p s);
}

add_captured-stays :
    (i : Option ℕ) (p : ℕ) (seen : List ℕ)
    → is_captured (some p) seen ≡ true
    → is_captured (some p) (add_captured i seen) ≡ true
add_captured-stays none p seen h = h
add_captured-stays (some q) p seen h = elim (Bool-cases (q == p)) [
  | inl e ↦ ap (λ b. b || any (λ r. r == p) seen) e
  | inr e ↦ ap (λ b. b || any (λ r. r == p) seen) e ∙ h
]

put_user-IsLater :
    (user : Option Fields) (scope : Option ℕ) (c : Client) → IsLater c (put_user user scope c)
unfolding put_user
put_user-IsLater user none c = same-IsLater c _ refl refl
put_user-IsLater user (some p) c = same-IsLater c _ refl refl

refresh_flags-IsLater :
    (call : Call) (body : Option FlagsBody) (c : Client) → IsLater c (refresh_flags call body c)
unfolding refresh_flags
refresh_flags-IsLater call none c = same-IsLater c c refl refl
refresh_flags-IsLater call (some body) c =
    same-IsLater c (refresh_flags call (some body) c) refl refl

abbrev shut_down : Call → Client → Done
shut_down call c = with_queue (record c { closed = true }) (begin_shutdown call.env c.queue)

shutdown-IsLater : (call : Call) (c : Client) → IsLater c (shutdown call c).0
unfolding shutdown
shutdown-IsLater call c =
    either-IsLater c.closed c (unchanged c) (shut_down call c) (same-IsLater c c refl refl)
      (record { shut = λ h. refl; seen = λ p h. h })

closed_branch :
    (b : Bool) (d e : Done)
    → (b ≡ true → d.0.closed ≡ true)
    → e.0.closed ≡ true
    → (if b then d else e).0.closed ≡ true
closed_branch true d e h k = h refl
closed_branch false d e h k = k

shutdown-closed : (call : Call) (c : Client) → (shutdown call c).0.closed ≡ true
unfolding shutdown
shutdown-closed call c = closed_branch c.closed (unchanged c) (shut_down call c) (λ h. h) refl

module _ (to_upper : Str → Str) (clean : Json → Option Json) (ms_text : ℕ → ℕ → Str) where
  submit-IsLater :
      (call : Call) (kind : Kind) (payload : Fields) (c : Client)
      → IsLater c (submit clean ms_text call kind payload c).0
  unfolding submit
  submit-IsLater call kind payload c =
      same-IsLater c (submit clean ms_text call kind payload c).0 refl refl

  same_client-IsLater : (c : Client) → IsLater c (unchanged c).0
  same_client-IsLater c = same-IsLater c c refl refl

  capture_error-IsLater :
      (call : Call) (thrown : Thrown) (context : ErrorContext) (c : Client)
      → IsLater c (capture_error clean ms_text call thrown context c).0
  unfolding capture_error submit
  capture_error-IsLater call thrown context c =
      let seen = record c { captured = add_captured thrown.identity c.captured } in
      either-IsLater (c.closed || is_captured thrown.identity c.captured) c (unchanged c)
        (submit clean ms_text call errors (error_payload call thrown context seen) seen)
        (same_client-IsLater c)
        (record { shut = λ h. h; seen = λ p h. add_captured-stays thrown.identity p c.captured h })

  capture_log-IsLater :
      (call : Call) (message : Str) (context : LogContext) (c : Client)
      → IsLater c (capture_log clean ms_text call message context c).0
  unfolding capture_log
  capture_log-IsLater call message context c =
      let low =
        ltb (level_weight (or_value context.level info))
          (level_weight c.config.logging.min_level) in
      elim (Bool-cases (c.closed || not c.config.logging.enabled)) [
        | inl off ↦ rw off (same_client-IsLater c)
        | inr on ↦ elim (Bool-cases low) [
          | inl l ↦ rw (on, l) (same_client-IsLater c)
          | inr l ↦ rw (on, l) (submit-IsLater call _ _ c)
        ]
      ]

  forward_console-IsLater :
      (call : Call) (method : ConsoleMethod) (message : Str) (c : Client)
      → IsLater c (forward_console clean ms_text call method message c).0
  unfolding forward_console
  forward_console-IsLater call method message c = elim (Bool-cases (is_console_captured c)) [
    | inl on ↦ rw on (
        let h = capture_log-IsLater call message _ (record c { in_console_capture = true }) in
        record { shut = h.shut; seen = h.seen })
    | inr off ↦ rw off (same_client-IsLater c)
  ]

  end_trace-IsLater :
      (call : Call) (now : ℕ) (opts : EndOptions) (t : Trace) (c : Client)
      → IsLater c (end_trace clean ms_text call now opts t c).1.0
  unfolding end_trace
  end_trace-IsLater call now opts t c = elim (Bool-cases (t.ended || c.closed)) [
    | inl e ↦ rw e (same_client-IsLater c)
    | inr e ↦ rw e (submit-IsLater call _ _ c)
  ]

  record_request-IsLater :
      (call : Call) (aborted : Bool) (status now : ℕ) (r : Request) (c : Client)
      → IsLater c (record_request to_upper clean ms_text call aborted status now r c).1.0
  unfolding record_request submit
  record_request-IsLater call aborted status now r c = elim (Bool-cases (r.recorded || c.closed)) [
    | inl e ↦ rw e (same_client-IsLater c)
    | inr e ↦ elim (Bool-cases r.sampled) [
      | inl s ↦ rw (e, s) (record { shut = λ h. h; seen = λ p h. h })
      | inr s ↦ rw (e, s) (record { shut = λ h. h; seen = λ p h. h })
    ]
  ]

  error_middleware-IsLater :
      (call : Call) (req : Req) (scope status : Option ℕ) (thrown : Option Thrown) (c : Client)
      → IsLater c (error_middleware to_upper clean ms_text call req scope status thrown c).0
  unfolding error_middleware
  error_middleware-IsLater call req scope status none c = same_client-IsLater c
  error_middleware-IsLater call req scope status (some thrown) c =
      capture_error-IsLater call thrown _ c

  client_step-IsLater :
      (call : Call) (e : ClientEvent) (c : Client)
      → IsLater c (client_step to_upper clean ms_text call e c).0
  unfolding client_step track open_request run_with_context flush set_user clear_user
  client_step-IsLater call (tracked name properties) c =
      either-IsLater _ c _ _ (same_client-IsLater c) (submit-IsLater call _ _ c)
  client_step-IsLater call (error_captured thrown context) c =
      capture_error-IsLater call thrown context c
  client_step-IsLater call (log_captured message context) c =
      capture_log-IsLater call message context c
  client_step-IsLater call (console_called method message) c =
      forward_console-IsLater call method message c
  client_step-IsLater call (trace_ended now opts t) c = end_trace-IsLater call now opts t c
  client_step-IsLater call (request_opened req p fresh_id random start_) c = record {
    shut = λ h. h;
    seen = λ p h. h;
  }
  client_step-IsLater call (context_opened given fresh_id p) c = record {
    shut = λ h. h;
    seen = λ p h. h;
  }
  client_step-IsLater call (request_ended aborted status now r) c =
      record_request-IsLater call aborted status now r c
  client_step-IsLater call (error_forwarded req scope status thrown) c =
      error_middleware-IsLater call req scope status thrown c
  client_step-IsLater call (user_set user) c = put_user-IsLater (some user) call.scope c
  client_step-IsLater call user_cleared c = put_user-IsLater none call.scope c
  client_step-IsLater call flags_failed c = refresh_flags-IsLater call none c
  client_step-IsLater call was_flushed c = record { shut = λ h. h; seen = λ p h. h }
  client_step-IsLater call was_shut_down c = shutdown-IsLater call c
  client_step-IsLater call (flags_arrived body) c = refresh_flags-IsLater call (some body) c
  client_step-IsLater call (was_answered res) c = record { shut = λ h. h; seen = λ p h. h }
  client_step-IsLater call retry_due c = record { shut = λ h. h; seen = λ p h. h }
  client_step-IsLater call interval_due c = record { shut = λ h. h; seen = λ p h. h }

  client_run-IsLater :
      (es : List (Call × ClientEvent)) (c : Client)
      → IsLater c (client_run to_upper clean ms_text es c).0
  unfolding client_run
  client_run-IsLater [] c = same_client-IsLater c
  client_run-IsLater ((call, e) ∷ es) c =
      let d = (client_step to_upper clean ms_text call e c).0 in
      IsLater-trans c d (client_run to_upper clean ms_text es d).0 (client_step-IsLater call e c)
        (client_run-IsLater es d)

  -- Once an open client has captured an error object, it does not capture it again: whatever has
  -- happened to the client since, with other errors captured among it, a later capture of the object
  -- with any context changes nothing and sends nothing.
  pub capture_error_once :
      (call later : Call) (first again : Thrown) (context other : ErrorContext) (p : ℕ) (c : Client)
      (es : List (Call × ClientEvent))
      → first.identity ≡ some p
      → again.identity ≡ some p
      → c.closed ≡ false
      → let r = capture_error clean ms_text call first context c in
        let d = (client_run to_upper clean ms_text es r.0).0 in
        capture_error clean ms_text later again other d ≡ unchanged d
  capture_error_once call later first again context other p c es ef ea open_client =
      let r = capture_error clean ms_text call first context c in
      let d = (client_run to_upper clean ms_text es r.0).0 in
      let at_once =
        ap (λ i. is_captured i r.0.captured) (sym ef)
        ∙ capture_error-seen clean ms_text call first context p c ef open_client in
      seen_once clean ms_text later again other d
        (ap (λ i. is_captured i d.captured) ea ∙ (client_run-IsLater es r.0).seen p at_once)

  -- After `shutdown`, whatever has happened since, the client captures nothing more: no event, error or
  -- log, and no trace that was started.
  pub shutdown_captures_nothing :
      (stop_call call : Call) (c : Client) (es : List (Call × ClientEvent))
      → let d = (client_run to_upper clean ms_text es (shutdown stop_call c).0).0 in
        ((name : Str) (properties : Fields)
          → track clean ms_text call name properties d ≡ unchanged d)
        × ((thrown : Thrown) (context : ErrorContext)
            → capture_error clean ms_text call thrown context d ≡ unchanged d)
        × ((message : Str) (context : LogContext)
            → capture_log clean ms_text call message context d ≡ unchanged d)
        × ((now : ℕ) (opts : EndOptions) (t : Trace)
            → end_trace clean ms_text call now opts t d ≡ (t, unchanged d))
  shutdown_captures_nothing stop_call call c es =
      let o = (shutdown stop_call c).0 in
      captures_closed clean ms_text call (client_run to_upper clean ms_text es o).0
        ((client_run-IsLater es o).shut (shutdown-closed stop_call c))

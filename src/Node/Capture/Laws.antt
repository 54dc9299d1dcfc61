-- ===== src/Node/Capture/Laws.antt =====
-- What node/src/watchup.ts captures once, never, and under which names.
use watchup_v3_packages.Prelude.{
  ℕ, ◌≡◌, refl, sym, ap, ◌∙◌, inl, inr, true, false, List, Option, some, Bool-cases, ◌||◌, ◌==◌,
  ==_iff, any,
}
use watchup_v3_packages.Utf8.{Str}
use watchup_v3_packages.Json.{Json, Fields}
use watchup_v3_packages.Payload.{is_empty_text, Thrown}
use watchup_v3_packages.Node.Client.{Client, Call, unchanged}
use watchup_v3_packages.Node.Capture.{submit, track, capture_error, capture_log, end_trace}
use watchup_v3_packages.Node.Payloads.{ErrorContext, Trace, EndOptions}
use watchup_v3_packages.Payload.Shared.{LogContext, is_captured, add_captured}

add_captured-captured :
    (i : Option ℕ) (p : ℕ) (seen : List ℕ) → i ≡ some p → is_captured i (add_captured i seen) ≡ true
add_captured-captured i p seen e =
    rw e (ap (λ b. b || any (λ q. q == p) seen) ((==_iff p p).1 refl))

module _ (clean : Json → Option Json) (ms_text : ℕ → ℕ → Str) where
  -- A closed client captures nothing: no event, error or log, and no trace that was started.
  pub captures_closed :
      (call : Call) (c : Client)
      → c.closed ≡ true
      → ((name : Str) (properties : Fields)
          → track clean ms_text call name properties c ≡ unchanged c)
        × ((thrown : Thrown) (context : ErrorContext)
            → capture_error clean ms_text call thrown context c ≡ unchanged c)
        × ((message : Str) (context : LogContext)
            → capture_log clean ms_text call message context c ≡ unchanged c)
        × ((now : ℕ) (opts : EndOptions) (t : Trace)
            → end_trace clean ms_text call now opts t c ≡ (t, unchanged c))
  unfolding track capture_error capture_log end_trace
  captures_closed call c shut = (
    (λ name properties. elim (Bool-cases (is_empty_text name)) [
      | inl e ↦ rw e refl
      | inr e ↦ simp (e, shut)
    ]),
    (λ thrown context. simp shut),
    (λ message context. simp shut),
    (λ now opts t. elim (Bool-cases t.ended) [ inl e ↦ simp e | inr e ↦ simp (e, shut) ]),
  )

  pub seen_once :
      (call : Call) (thrown : Thrown) (context : ErrorContext) (c : Client)
      → is_captured thrown.identity c.captured ≡ true
      → capture_error clean ms_text call thrown context c ≡ unchanged c
  unfolding capture_error
  seen_once call thrown context c seen = elim (Bool-cases c.closed) [
    | inl shut ↦ simp shut
    | inr open_client ↦ simp (open_client, seen)
  ]

  pub capture_error-seen :
      (call : Call) (thrown : Thrown) (context : ErrorContext) (p : ℕ) (c : Client)
      → thrown.identity ≡ some p
      → c.closed ≡ false
      → is_captured thrown.identity (capture_error clean ms_text call thrown context c).0.captured
        ≡ true
  unfolding capture_error submit
  capture_error-seen call thrown context p c same_object open_client =
      elim (Bool-cases (is_captured thrown.identity c.captured)) [
        | inl seen ↦ simp (open_client, seen, unchanged)
        | inr fresh ↦
            simp
              (open_client, fresh, add_captured-captured thrown.identity p c.captured same_object)
      ]

  -- An error object is reported once: whatever is captured of it again, with any context, changes
  -- nothing and sends nothing.
  pub capture_error_again :
      (call later : Call) (first again : Thrown) (context other : ErrorContext) (p : ℕ) (c : Client)
      → first.identity ≡ some p
      → again.identity ≡ some p
      → c.closed ≡ false
      → let r = capture_error clean ms_text call first context c in
        capture_error clean ms_text later again other r.0 ≡ unchanged r.0
  capture_error_again call later first again context other p c ef ea open_client =
      seen_once later again other _ (
        ap (λ i. is_captured i (capture_error clean ms_text call first context c).0.captured)
          (ea ∙ sym ef)
        ∙ capture_error-seen call first context p c ef open_client)

  -- A trace is recorded once: the function that `startTrace` returned does nothing when it is called
  -- again.
  pub end_trace_once :
      (call later : Call) (now then_ : ℕ) (opts other : EndOptions) (t : Trace) (c d : Client)
      → c.closed ≡ false
      → let r = end_trace clean ms_text call now opts t c in
        end_trace clean ms_text later then_ other r.0 d ≡ (r.0, unchanged d)
  unfolding end_trace
  end_trace_once call later now then_ opts other t c d open_client = elim (Bool-cases t.ended) [
    | inl e ↦ simp e
    | inr e ↦ simp (e, open_client)
  ]

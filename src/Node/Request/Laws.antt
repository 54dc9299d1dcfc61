-- ===== src/Node/Request/Laws.antt =====
-- How often node/src/watchup.ts records a request, and what reaches the error handlers.
use watchup_v3_packages.Prelude.{
  ℕ, ◌≤◌, ◌≡◌, refl, inl, inr, Bool, true, false, [], arith, Option, none, some, Bool-cases, ◌||◌,
}
use watchup_v3_packages.Utf8.{Str}
use watchup_v3_packages.Json.{Json}
use watchup_v3_packages.Payload.{Thrown}
use watchup_v3_packages.Node.Middleware.{Req, error_status}
use watchup_v3_packages.Node.Client.{Client, Call, unchanged}
use watchup_v3_packages.Node.Capture.{capture_error}
use watchup_v3_packages.Node.Payloads.{ErrorContext}
use watchup_v3_packages.Node.Capture.Laws.{capture_error_again}
use watchup_v3_packages.Node.Request.{
  Request, record_request, on_finish, on_close, error_middleware,
}

module _ (to_upper : Str → Str) (clean : Json → Option Json) (ms_text : ℕ → ℕ → Str) where
  record_request_once :
      (call later : Call) (aborted also : Bool) (status code now end_ : ℕ) (r : Request)
      (c d : Client)
      → c.closed ≡ false
      → let first = record_request to_upper clean ms_text call aborted status now r c in
        record_request to_upper clean ms_text later also code end_ first.0 d
        ≡ (first.0, unchanged d)
  unfolding record_request
  record_request_once call later aborted also status code now end_ r c d open_client =
      elim (Bool-cases r.recorded) [
        | inl e ↦ simp e
        | inr e ↦ elim (Bool-cases r.sampled) [
          | inl s ↦ simp (e, open_client, s)
          | inr s ↦ simp (e, open_client, s)
        ]
      ]

  -- When a response has finished, neither a later `finish` nor a later `close` records its request
  -- again, whether or not the response was written out.
  pub finish_then_close :
      (call later : Call) (written : Bool) (status code now end_ : ℕ) (r : Request) (c d : Client)
      → c.closed ≡ false
      → let first = on_finish to_upper clean ms_text call status now r c in
        (on_finish to_upper clean ms_text later code end_ first.0 d ≡ (first.0, unchanged d))
        × (on_close to_upper clean ms_text later written code end_ first.0 d
            ≡ (first.0, unchanged d))
  unfolding on_finish on_close
  finish_then_close call later written status code now end_ r c d open_client = (
    record_request_once call later false false status code now end_ r c d open_client,
    elim (Bool-cases written) [
      | inl w ↦ simp w
      | inr w ↦
          simp (w, record_request_once call later false true status code now end_ r c d open_client)
    ],
  )

  -- A request that is not sampled sends nothing and leaves the queue as it was, but its context gets
  -- the route, for the errors that it reports.
  pub unsampled_request :
      (call : Call) (aborted : Bool) (status now : ℕ) (r : Request) (c : Client)
      → r.sampled ≡ false
      → let o = (record_request to_upper clean ms_text call aborted status now r c).1 in
        (o.0.queue ≡ c.queue) × (o.1 ≡ [])
  unfolding record_request
  unsampled_request call aborted status now r c s = elim (Bool-cases (r.recorded || c.closed)) [
    | inl e ↦ simp e (refl, refl)
    | inr e ↦ simp (e, s) (refl, refl)
  ]

  -- An error that was captured by hand, in any context, is not captured again by the error middleware
  -- of any request.
  pub error_middleware_after_capture :
      (call later : Call) (req : Req) (scope status : Option ℕ) (first again : Thrown)
      (context : ErrorContext) (p : ℕ) (c : Client)
      → first.identity ≡ some p
      → again.identity ≡ some p
      → c.closed ≡ false
      → let r = capture_error clean ms_text call first context c in
        error_middleware to_upper clean ms_text later req scope status (some again) r.0
        ≡ unchanged r.0
  unfolding error_middleware
  error_middleware_after_capture call later req scope status first again context p c ef ea
        open_client =
      capture_error_again clean ms_text call later first again context _ p c ef ea open_client

-- The status that is recorded for an error lies between 400 and 599, whatever the error asks for.
pub error_status_bounds :
    (status : Option ℕ) → (400 ≤ error_status status) × (error_status status ≤ 599)
unfolding error_status
error_status_bounds none = omega arith
error_status_bounds (some status) = ground arith

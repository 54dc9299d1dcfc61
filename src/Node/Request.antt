-- ===== src/Node/Request.antt =====
-- node/src/watchup.ts: the two Express middlewares.
pub mod Laws
use watchup_v3_packages.Prelude.{
  ℕ, ◌+◌, ◌++◌, ◌==◌, ◌||◌, ◌&&◌, not, Bool, true, false, List, [], ◌∷◌, leb, if◌then◌else◌, Option,
  none, some,
}
use watchup_v3_packages.Utf8.{Str, units, decimal}
use watchup_v3_packages.Json.{Json, bool, number, string, object, Fields, end, field}
use watchup_v3_packages.Types.{traces}
use watchup_v3_packages.Payload.{
  spread, join_fields, single, if_text, if_object, if_true, or_other, or_value, or_text, Status,
  warn, status_text, Thrown,
}
use watchup_v3_packages.Node.Middleware.{
  Req, method_of, route_name, normalise_path, request_url, trace_status, request_details,
  error_status,
}
use watchup_v3_packages.Node.Context.{Scope, trace_id_from, safe_request_id}
use watchup_v3_packages.Node.Client.{
  Client, Call, Done, unchanged, update_scope, base_context, should_sample,
}
use watchup_v3_packages.Node.Capture.{submit, capture_error}
use watchup_v3_packages.Node.Payloads.{ErrorContext, release_field}

-- What the closures of `requestMiddleware` share for one request; `scope` is where its context lives.
pub record Request : Type 0 where
  pub req : Req
  pub scope : ℕ
  pub sampled : Bool
  pub start : ℕ
  pub started_at : Str
  pub recorded : Bool

module _ (to_upper : Str → Str) where
  -- The context that a request begins with; `fresh_id` is what `uuid()` gives.
  unfoldable pub request_scope : Req → Str → Client → Scope
  request_scope req fresh_id c = record {
    request_id = or_value (safe_request_id (req.header (units "x-request-id"))) fresh_id;
    trace_id = trace_id_from (req.header (units "traceparent"));
    method = some (method_of to_upper req);
    route = none;
    user = c.global_user;
  }

  -- The middleware up to `next()`, which then runs with the new context, at a place `p` that no other
  -- context has.
  unfoldable pub open_request : Call → Req → ℕ → Str → ℕ → ℕ → Client → Client × Request
  open_request call req p fresh_id random start c = (
    record c { scopes = update_scope c.scopes p (request_scope req fresh_id c) },
    record {
      req = req;
      scope = p;
      sampled = should_sample random c;
      start = start;
      started_at = call.iso_now;
      recorded = false;
    },
  )

  -- `Number(res.statusCode) || 200`
  abbrev pub response_code : Bool → ℕ → ℕ
  response_code true status = 499
  response_code false status = if status == 0 then 200 else status

  abbrev pub response_status : Bool → ℕ → Status
  response_status true code = warn
  response_status false code = trace_status code

  module _ (clean : Json → Option Json) (ms_text : ℕ → ℕ → Str) where
    unfoldable pub request_payload : Request → Bool → ℕ → ℕ → Client → Fields
    request_payload r aborted status now c =
        let code = response_code aborted status in
        let scope = c.scopes r.scope in
        field (units "span") (string (route_name to_upper r.req)) (
          field (units "type") (string (units "http")) (
            field (units "ms") (number (ms_text r.start now)) (
              field (units "status_code") (number (decimal code)) (
                field (units "status") (string (status_text (response_status aborted code))) (
                  field (units "timestamp") (string r.started_at) (
                    field (units "environment") (string c.config.environment) (
                      join_fields (release_field c) (
                        field (units "meta")
                          (object (
                            spread (base_context (some r.scope) c) (
                              join_fields (if_text (units "method") scope.method) (
                                field (units "path") (string (normalise_path (request_url r.req)))
                                  (if_true aborted (single (units "aborted") (bool true)))))))
                          (if_object (units "user") scope.user)))))))))

    -- `record`
    unfoldable pub record_request : Call → Bool → ℕ → ℕ → Request → Client → Request × Done
    record_request call aborted status now r c =
        let named = record c {
          scopes =
              update_scope c.scopes r.scope
                (record (c.scopes r.scope) { route = some (route_name to_upper r.req) });
        } in
        let seen = record r { recorded = true } in
        if r.recorded || c.closed
        then (r, unchanged c)
        else if not r.sampled
        then (seen, unchanged named)
        else (
          seen,
          submit clean ms_text call traces (request_payload r aborted status now named) named,
        )

    -- The listeners: `finish`, and `close` unless all was written.
    unfoldable pub on_finish : Call → ℕ → ℕ → Request → Client → Request × Done
    on_finish call status now r c = record_request call false status now r c

    unfoldable pub on_close : Call → Bool → ℕ → ℕ → Request → Client → Request × Done
    on_close call written status now r c =
        if written then (r, unchanged c) else record_request call true status now r c

    abbrev pub error_level : ℕ → Str
    error_level status = if leb 500 status then units "error" else units "warning"

    -- The error middleware. `none` is a falsy error; `watchup_context` is `req.watchupContext`, and
    -- `status` what the error asks for. The error is passed on to `next` in either case.
    unfoldable pub error_middleware :
        Call → Req → Option ℕ → Option ℕ → Option Thrown → Client → Done
    error_middleware call req watchup_context status none c = unchanged c
    error_middleware call req watchup_context status (some thrown) c =
        let code = error_status status in
        capture_error clean ms_text call thrown
          (record {
            route = some (route_name to_upper req);
            level = some (error_level code);
            scope = or_other watchup_context call.scope;
            rest = single (units "request") (
                object (
                  spread (request_details req)
                    (single (units "status_code") (number (decimal code)))));
          })
          c

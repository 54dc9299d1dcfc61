-- ===== src/Node/Tests.antt =====
-- Small runs of node/src: a request with a user, an error that is captured twice, a new client.
use watchup_v3_packages.Prelude.{
  ℕ, ◌≤◌, ◌≡◌, ◌≢◌, refl, subst, Bool, true, false, List, [], ◌∷◌, Option, none, some, All, length,
  all, any, same,
}
use watchup_v3_packages.Utf8.{Str, units, decimal}
use watchup_v3_packages.Json.{Json, object, string, Fields, end, field}
use watchup_v3_packages.Json.Access.{get_field}
use watchup_v3_packages.Flags.{new_store}
use watchup_v3_packages.Queue.State.{pending_count, resolve_options, new_queue}
use watchup_v3_packages.Queue.Calls.{start}
use watchup_v3_packages.Queue.Sound.{pending_size}
use watchup_v3_packages.Payload.{Thrown}
use watchup_v3_packages.Node.Middleware.{Req, safe_headers, header_loop, request_details}
use watchup_v3_packages.Node.Middleware.Laws.{shown, harmless, secret, header_loop-safe}
use watchup_v3_packages.Node.Context.{
  Scope, trim_start, trim_end, is_traceparent, trace_id_of, trace_id_from,
}
use watchup_v3_packages.Node.Context.Laws.{is_lower_hex, trace_id_from_lem}
use watchup_v3_packages.Node.Client.{
  shutdown, Client, new_client, Call, unchanged, current_user, set_user, clear_user, scope_user,
}
use watchup_v3_packages.Node.Config.{WatchupOptions, Config, resolve_config, queue_options}
use watchup_v3_packages.Node.Capture.{track, capture_error, capture_log, end_trace}
use watchup_v3_packages.Node.Payloads.{ErrorContext, EndOptions, Trace, error_context}
use watchup_v3_packages.Payload.Shared.{LogContext}
use watchup_v3_packages.Node.Lasting.{capture_error_once, shutdown_captures_nothing}
use watchup_v3_packages.Node.Users.{set_user_isolated, clear_user_falls_back, error_context_names}
use watchup_v3_packages.Node.Request.{Request, on_finish, on_close}
use watchup_v3_packages.Node.Request.Laws.{finish_then_close}
use watchup_v3_packages.Node.Steps.{
  ClientEvent, tracked, error_captured, was_flushed, was_answered, was_shut_down, client_run,
}
use watchup_v3_packages.Node.Delivery.{SendsWithin, client_run-delivery}

abbrev test_upper : Str → Str
test_upper s = s

abbrev test_clean : Json → Option Json
test_clean j = some j

abbrev test_ms : ℕ → ℕ → Str
test_ms start now = decimal now

abbrev test_options : WatchupOptions
test_options = record {
  api_key = units "wup_live_x";
  base_url = none;
  redact_keys = none;
  debug_mode = none;
  handle_signals = none;
  capture_unhandled = none;
  environment = none;
  release = some (units "1.0");
  service = some (units "shop");
  flush_interval = none;
  max_batch_size = some 2;
  max_queue_size = none;
  sample_rate = none;
  shutdown_timeout = none;
  flag_refresh_interval = none;
  logging = record { enabled = none; capture_console = none; min_level = none };
}

abbrev test_scopes : ℕ → Scope
test_scopes p = record {
  request_id = decimal p;
  trace_id = none;
  method = none;
  route = none;
  user = none;
}

abbrev test_config : Config
test_config = resolve_config none test_options

abbrev test_client : Client
test_client = record {
  config = test_config;
  queue =
      (start test_config.flush_interval
        (new_queue (resolve_options (queue_options test_config)))).0;
  flags = new_store none;
  global_user = none;
  closed = false;
  in_console_capture = false;
  scopes = test_scopes;
  captured = [];
}

abbrev test_user : Fields
test_user = field (units "id") (string (units "u1")) end

abbrev test_call : Option ℕ → Call
test_call scope = record {
  scope = scope;
  env = record {
    now = 100;
    random = 5;
    batch_id = units "b1";
    sent_at = units "now";
    base = record {
      sdk = record { name = units "node"; version = units "1.0" };
      environment = none;
      release = none;
      project_id = none;
    };
  };
  iso_now = units "now";
  runtime = end;
}

abbrev test_error : Thrown
test_error = record {
  identity = some 7;
  message = units "lost";
  name = units "Error";
  stack = none;
  cause = none;
  as_text = units "Error: lost";
}

abbrev test_context : ErrorContext
test_context = record {
  route = none;
  level = none;
  scope = none;
  rest = field (units "source") (string (units "mine")) end;
}

abbrev test_trace : Trace
test_trace = record {
  span = units "job";
  type = units "custom";
  start = 1;
  started_at = units "then";
  scope = none;
  user = none;
  ended = false;
}

abbrev test_req : Req
test_req = record {
  method = none;
  template = none;
  base_url = none;
  original_url = none;
  url = none;
  path = none;
  header = λ name. some name;
}

abbrev test_request : Bool → Request
test_request sampled = record {
  req = test_req;
  scope = 3;
  sampled = sampled;
  start = 1;
  started_at = units "then";
  recorded = false;
}

-- An event, an error, a flush, an answer, and the end.
abbrev test_events : List (Call × ClientEvent)
test_events =
    (test_call none, tracked (units "signed_up") end)
    ∷ (test_call (some 3), error_captured test_error test_context)
    ∷ (test_call none, was_flushed)
    ∷ (
      test_call none,
      was_answered (record {
        ok = true;
        status = some 202;
        code = none;
        retry_after_ms = none;
        error = none;
      }),
    )
    ∷ (test_call none, was_shut_down)
    ∷ []

client_run-delivery_example :
    let r = client_run test_upper test_clean test_ms test_events test_client in
    (pending_count r.0.queue ≤ 1000)
    × (r.0.queue.pending_bytes ≡ pending_size r.0.queue.pending)
    × All (SendsWithin 5) r.1
unfolding new_client
client_run-delivery_example =
    client_run-delivery test_upper test_clean test_ms none test_options test_scopes [] test_client
      test_events refl

shutdown_captures_nothing_example :
    let d =
      (client_run test_upper test_clean test_ms test_events
        (shutdown (test_call none) test_client).0).0 in
    ((name : Str) (properties : Fields)
      → track test_clean test_ms (test_call none) name properties d ≡ unchanged d)
    × ((thrown : Thrown) (context : ErrorContext)
        → capture_error test_clean test_ms (test_call none) thrown context d ≡ unchanged d)
    × ((message : Str) (context : LogContext)
        → capture_log test_clean test_ms (test_call none) message context d ≡ unchanged d)
    × ((now : ℕ) (opts : EndOptions) (t : Trace)
        → end_trace test_clean test_ms (test_call none) now opts t d ≡ (t, unchanged d))
shutdown_captures_nothing_example =
    shutdown_captures_nothing test_upper test_clean test_ms (test_call none) (test_call none)
      test_client test_events

-- Another error is captured between.
capture_error_once_example :
    let r = capture_error test_clean test_ms (test_call none) test_error test_context test_client in
    let other = record test_error { identity = some 8 } in
    let d =
      (client_run test_upper test_clean test_ms
        ((test_call none, error_captured other test_context) ∷ [])
        r.0).0 in
    capture_error test_clean test_ms (test_call (some 3)) test_error test_context d ≡ unchanged d
capture_error_once_example =
    capture_error_once test_upper test_clean test_ms (test_call none) (test_call (some 3))
      test_error test_error test_context test_context 7 test_client
      ((test_call none, error_captured (record test_error { identity = some 8 }) test_context) ∷ [])
      refl refl refl

finish_then_close_example :
    let first =
      on_finish test_upper test_clean test_ms
        (test_call none)
        200
        9
        (test_request true)
        test_client in
    (on_finish test_upper test_clean test_ms (test_call none) 200 9 first.0 test_client
      ≡ (first.0, unchanged test_client))
    × (on_close test_upper test_clean test_ms (test_call none) false 200 9 first.0 test_client
        ≡ (first.0, unchanged test_client))
finish_then_close_example =
    finish_then_close test_upper test_clean test_ms (test_call none) (test_call none) false 200 200
      9 9 (test_request true) test_client test_client refl

abbrev IsOutside : Option ℕ → Type 0
IsOutside none = Unit
IsOutside (some p) = ⊥

apart_from : (p : ℕ) → none ≢ some p
apart_from p h = subst IsOutside h tt

set_user_isolated_example :
    (current_user (test_call (some 3)) (set_user (test_call (some 3)) test_user test_client)
      ≡ some test_user)
    × (current_user (test_call none) (set_user (test_call (some 3)) test_user test_client)
        ≡ current_user (test_call none) test_client)
set_user_isolated_example =
    set_user_isolated (test_call (some 3)) (test_call none) test_user 3 test_client refl
      (apart_from 3)

clear_user_falls_back_example :
    let c = record test_client { global_user = some test_user } in
    (scope_user (some 3) (clear_user (test_call (some 3)) c) ≡ none)
    × (current_user (test_call (some 3)) (clear_user (test_call (some 3)) c) ≡ some test_user)
    × (current_user (test_call none) (clear_user (test_call (some 3)) c)
        ≡ current_user (test_call none) c)
clear_user_falls_back_example =
    clear_user_falls_back (test_call (some 3)) (test_call none) 3
      (record test_client { global_user = some test_user }) refl (apart_from 3)

error_context_names_example :
    (get_field (units "source") (error_context (some 3) test_error test_context test_client)
      ≡ some (string (units "server")))
    × (get_field (units "request_id") (error_context (some 3) test_error test_context test_client)
        ≡ some (string (units "3")))
unfolding decimal
error_context_names_example = error_context_names 3 test_error test_context test_client

header_loop-safe_example :
    (get_field (units "headers") (request_details test_req)
      ≡ some (object (header_loop test_req safe_headers)))
    × (get_field (units "accept") (header_loop test_req safe_headers)
        ≡ shown test_req (units "accept") (any (same (units "accept")) harmless))
    × All (λ s. get_field s (header_loop test_req safe_headers) ≡ none) secret
header_loop-safe_example = header_loop-safe test_req (units "accept")

trace_id_from_lem_example :
    let id = units "4bf92f3577b34da6a3ce929d0e0e4736" in
    (length id ≡ 32) × (all is_lower_hex id ≡ true)
unfolding trace_id_from trace_id_of is_traceparent trim_start trim_end
trace_id_from_lem_example =
    trace_id_from_lem (some (units "00-4BF92F3577B34DA6A3CE929D0E0E4736-00f067aa0ba902b7-01"))
      (units "4bf92f3577b34da6a3ce929d0e0e4736") refl

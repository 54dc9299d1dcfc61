-- ===== src/Node/Payloads.antt =====
-- node/src/watchup.ts: the payloads, from what the caller passes and the client knows.
use watchup_v3_packages.Payload.Shared.{LogContext, text_json}
use watchup_v3_packages.Prelude.{ℕ, ◌++◌, Bool, true, false, ltb, if◌then◌else◌, Option, none, some}
use watchup_v3_packages.Utf8.{Str, units}
use watchup_v3_packages.Json.{bool, string, object, Fields, end, field}
use watchup_v3_packages.Payload.{
  spread, join_fields, single, if_text, if_object, if_defined, if_true, or_other, or_value, or_text,
  Status, ok, warn, err, info, level_text, Thrown,
}
use watchup_v3_packages.Node.Client.{Client, Call, current_user, base_context, scope_user}

-- The context argument of `captureError`: the caller's other fields, and the scope that the error
-- middleware passes under a symbol.
pub record ErrorContext : Type 0 where
  pub route : Option Str
  pub level : Option Str
  pub scope : Option ℕ
  pub rest : Fields

-- What `startTrace` keeps for the function that it returns.
pub record Trace : Type 0 where
  pub span : Str
  pub type : Str
  pub start : ℕ
  pub started_at : Str
  pub scope : Option ℕ
  pub user : Option Fields
  pub ended : Bool

pub record EndOptions : Type 0 where
  pub status : Option Status
  pub status_code : Option ℕ
  pub meta : Fields

abbrev pub scope_route : Option ℕ → Client → Option Str
scope_route none c = none
scope_route (some p) c = (c.scopes p).route

abbrev pub release_field : Client → Fields
release_field c = if_text (units "release") (some c.config.release)

unfoldable pub event_payload : Call → Str → Fields → Client → Fields
event_payload call name properties c = field (units "name") (string name) (
    field (units "properties")
      (object (
        spread (spread (base_context call.scope c) (if_object (units "user") (current_user call c)))
          properties))
      (single (units "occurred_at") (string call.iso_now)))

unfoldable pub error_context : Option ℕ → Thrown → ErrorContext → Client → Fields
error_context scope thrown context c =
    spread (spread context.rest (base_context scope c)) (if_defined (units "cause") thrown.cause)

unfoldable pub error_payload : Call → Thrown → ErrorContext → Client → Fields
error_payload call thrown context c =
    let scope = or_other context.scope call.scope in
    let user = or_other (scope_user scope c) c.global_user in
    let route = or_other context.route (scope_route scope c) in
    field (units "message") (string (or_text thrown.message thrown.as_text)) (
      field (units "type") (string (or_text thrown.name (units "Error"))) (
        field (units "level") (string (or_value context.level (units "error"))) (
          join_fields (if_defined (units "stack") (text_json thrown.stack)) (
            join_fields (if_text (units "route") route) (
              field (units "context") (object (error_context scope thrown context c)) (
                field (units "timestamp") (string call.iso_now) (
                  field (units "environment") (string c.config.environment)
                    (join_fields (release_field c) (if_object (units "user") user)))))))))

unfoldable pub log_payload : Call → Str → LogContext → Client → Fields
log_payload call message context c =
    let level = level_text (or_value context.level info) in
    field (units "name") (string (units "log." ++ level)) (
      field (units "properties")
        (object (
          spread
            (spread
              (spread context.rest
                (field (units "message") (string message) (single (units "level") (string level))))
              (base_context call.scope c))
            (field (units "runtime") (object call.runtime) (
              join_fields
                (if_text (units "route") (or_other context.route (scope_route call.scope c)))
                (if_object (units "user") (current_user call c))))))
        (single (units "occurred_at") (string call.iso_now)))

unfoldable pub start_trace : Call → Str → Option Str → ℕ → Client → Trace
start_trace call span type start c = record {
  span = span;
  type = or_value type (units "custom");
  start = start;
  started_at = call.iso_now;
  scope = call.scope;
  user = current_user call c;
  ended = false;
}

-- How the traced function ended.
pub data Outcome : Type 0 where
  returned threw : Outcome

abbrev pub outcome_options : Outcome → EndOptions
outcome_options returned = record { status = none; status_code = none; meta = end }
outcome_options threw = record { status = some err; status_code = none; meta = end }

pub record QueryOptions : Type 0 where
  pub system : Option Str
  pub slow_ms : Option ℕ

unfoldable pub query_options : ℕ → QueryOptions → Outcome → EndOptions
query_options elapsed options returned =
    let slow = ltb (or_value options.slow_ms 500) elapsed in
    record {
      status = some (if slow then warn else ok);
      status_code = none;
      meta =
          spread (if_text (units "db_system") options.system)
            (if_true slow (single (units "slow") (bool true)));
    }
query_options elapsed options threw = record {
  status = some err;
  status_code = none;
  meta = if_text (units "db_system") options.system;
}

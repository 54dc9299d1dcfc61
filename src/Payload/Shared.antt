-- ===== src/Payload/Shared.antt =====
-- What the captures of the three clients have in common: levels, console methods, and which errors
-- have been reported.
use watchup_v3_packages.Prelude.{ℕ, ◌==◌, Bool, true, false, List, ◌∷◌, Option, none, some, any}
use watchup_v3_packages.Utf8.{Str, units}
use watchup_v3_packages.Json.{Json, bool, string, Fields, field}
use watchup_v3_packages.Payload.{
  single, Status, ok, warn, err, LogLevel, debug, info, warning, error, critical,
}

-- LOG_LEVEL_WEIGHT
unfoldable pub level_weight : LogLevel → ℕ
level_weight debug = 10
level_weight info = 20
level_weight warning = 30
level_weight error = 40
level_weight critical = 50

pub record LogContext : Type 0 where
  pub level : Option LogLevel
  pub route : Option Str
  pub rest : Fields

abbrev pub text_json : Option Str → Option Json
text_json none = none
text_json (some s) = some (string s)

abbrev pub is_captured : Option ℕ → List ℕ → Bool
is_captured none seen = false
is_captured (some p) seen = any (λ q. q == p) seen

abbrev pub add_captured : Option ℕ → List ℕ → List ℕ
add_captured none seen = seen
add_captured (some p) seen = p ∷ seen

abbrev pub default_code : Status → ℕ
default_code ok = 200
default_code warn = 400
default_code err = 500

-- The methods of the console that are wrapped.
pub data ConsoleMethod : Type 0 where
  console_debug console_info console_log console_warn console_error : ConsoleMethod

abbrev pub console_level : ConsoleMethod → LogLevel
console_level console_debug = debug
console_level console_info = info
console_level console_log = info
console_level console_warn = warning
console_level console_error = error

abbrev pub method_name : ConsoleMethod → Str
method_name console_debug = units "debug"
method_name console_info = units "info"
method_name console_log = units "log"
method_name console_warn = units "warn"
method_name console_error = units "error"

abbrev pub console_context : ConsoleMethod → LogContext
console_context method = record {
  level = some (console_level method);
  route = none;
  rest =
      field (units "console") (bool true) (single (units "method") (string (method_name method)));
}

-- ===== src/Http.antt =====
-- core/src/http.ts: statuses, headers and the reading of a response.
pub mod Laws
mod Tests
use watchup_v3_packages.Prelude.{
  ℕ, ◌+◌, ◌++◌, ◌==◌, ◌*◌, min, Bool, true, false, ◌||◌, ◌&&◌, not, List, [], ◌∷◌, leb,
  if◌then◌else◌, Option, none, some, ℤ, pos, negsuc, sub_ℕ,
}
use watchup_v3_packages.Utf8.{Str, units}
use watchup_v3_packages.Json.{Json, string, object}
use watchup_v3_packages.Json.Access.{get_field}
use watchup_v3_packages.Types.{SdkInfo, SendResult}

abbrev pub max_retry_after_ms : ℕ
max_retry_after_ms = 60_000

unfoldable pub is_retryable_status : ℕ → Bool
is_retryable_status status = status == 408 || status == 425 || status == 429 || leb 500 status

-- `Math.max(0, Math.min(ms, MAX_RETRY_AFTER_MS))`
abbrev pub cap_ms : ℤ → ℕ
cap_ms (pos ms) = min ms max_retry_after_ms
cap_ms (negsuc ms) = 0

-- `seconds * 1000`
abbrev pub to_ms : ℤ → ℤ
to_ms (pos seconds) = pos (seconds * 1000)
to_ms (negsuc seconds) = negsuc (seconds * 1000 + 999)

abbrev pub is_blank : Option Str → Bool
is_blank none = true
is_blank (some []) = true
is_blank (some (c ∷ s)) = false

-- What the platform makes of a text: `Number(value)`, where that is finite, for whole numbers of
-- seconds; `Date.parse(value)`, where that is a time; and `JSON.parse(body)`, where that returns.
pub record Platform : Type 0 where
  pub to_number : Str → Option ℤ
  pub date_parse : Str → Option ℕ
  pub json_parse : Str → Option Json

module _ (platform : Platform) where
  open platform use {to_number, date_parse, json_parse}

  retry_after_text : Str → ℕ → Option ℕ
  retry_after_text value now = elim (to_number value) [
    | some seconds ↦ some (cap_ms (to_ms seconds))
    | none ↦ elim (date_parse value) [ some at ↦ some (cap_ms (sub_ℕ at now)) | none ↦ none ]
  ]

  unfoldable pub parse_retry_after : Option Str → ℕ → Option ℕ
  unfolding retry_after_text
  parse_retry_after none now = none
  parse_retry_after (some []) now = none
  parse_retry_after (some (c ∷ s)) now = retry_after_text (c ∷ s) now

  -- `typeof json.code === 'string' ? json.code : undefined`
  abbrev string_code : Option Json → Option Str
  string_code (some (string code)) = some code
  string_code other = none

  -- Values that are no objects have no `code`; reading it from `null` throws and is caught.
  abbrev code_of : Option Json → Option Str
  code_of (some (object fs)) = string_code (get_field (units "code") fs)
  code_of other = none

  unfoldable pub parse_error_code : Str → Option Str
  parse_error_code body = code_of (json_parse body)

  -- The parts of a fetch `Response` that are read. `text` is none if reading the body fails.
  pub record Response : Type 0 where
    pub ok : Bool
    pub status : ℕ
    pub retry_after : Option Str
    pub text : Option Str

  abbrev text_or_empty : Option Str → Str
  text_or_empty none = []
  text_or_empty (some body) = body

  -- `if (code) … else if (status === 413) …`: an empty code counts as none.
  error_code : Option Str → ℕ → Option Str
  error_code (some (c ∷ s)) status = some (c ∷ s)
  error_code other status = if status == 413 then some (units "payload_too_large") else none

  unfoldable pub to_send_result : Response → ℕ → SendResult
  unfolding error_code
  to_send_result res now =
      if res.ok
      then record {
        ok = true;
        status = some res.status;
        code = none;
        retry_after_ms = none;
        error = none;
      }
      else record {
        ok = false;
        status = some res.status;
        code = error_code (parse_error_code (text_or_empty res.text)) res.status;
        retry_after_ms = parse_retry_after res.retry_after now;
        error = none;
      }

pub record HeaderOptions : Type 0 where
  pub api_key : Str
  pub sdk : SdkInfo
  pub idempotency_key : Option Str
  pub include_idempotency_header : Bool
  pub include_user_agent : Bool

idempotency_header : Bool → Option Str → List (Str × Str)
idempotency_header true (some (c ∷ s)) = (units "Idempotency-Key", c ∷ s) ∷ []
idempotency_header include_it key = []

unfoldable pub ingest_headers : HeaderOptions → List (Str × Str)
unfolding idempotency_header
ingest_headers opts =
    (units "Content-Type", units "application/json")
    ∷ (units "Authorization", units "Bearer " ++ opts.api_key)
    ∷ (units "X-Api-Key", opts.api_key)
    ∷ (idempotency_header opts.include_idempotency_header opts.idempotency_key
        ++ (if opts.include_user_agent
            then (units "User-Agent", opts.sdk.name ++ (b'/' ∷ opts.sdk.version)) ∷ []
            else []))

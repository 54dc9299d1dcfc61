-- ===== src/Node/Context.antt =====
-- node/src/context.ts: identifiers from headers, and the request contexts.
pub mod Laws
use watchup_v3_packages.Prelude.{
  ℕ, ◌+◌, ◌==◌, ◌||◌, ◌&&◌, not, Bool, true, false, List, [], ◌∷◌, leb, if◌then◌else◌, Option, none,
  some, length, take, drop, all, map,
}
use watchup_v3_packages.Utf8.{Str}
use watchup_v3_packages.Json.{Fields}
use watchup_v3_packages.Normalize.Scrub.{is_word, is_space, fold_case}
use watchup_v3_packages.Node.Middleware.{is_hex, is_dash}

-- `trim` at the front, and at the end.
unfoldable pub trim_start : Str → Str
trim_start [] = []
trim_start (c ∷ s) = let rest = trim_start s in if is_space c then rest else c ∷ s

unfoldable pub trim_end : Str → Str
trim_end [] = []
trim_end (c ∷ s) = if all is_space (c ∷ s) then [] else c ∷ trim_end s

-- `/^[\da-f]{2}-([\da-f]{32})-[\da-f]{16}-[\da-f]{2}$/i`
unfoldable pub is_traceparent : Str → Bool
is_traceparent s =
    length s == 55
    && all is_hex (take 2 s)
    && all is_dash (take 1 (drop 2 s))
    && all is_hex (take 32 (drop 3 s))
    && all is_dash (take 1 (drop 35 s))
    && all is_hex (take 16 (drop 36 s))
    && all is_dash (take 1 (drop 52 s))
    && all is_hex (drop 53 s)

unfoldable pub trace_id_of : Str → Option Str
trace_id_of s = if is_traceparent s then some (map fold_case (take 32 (drop 3 s))) else none

-- `none` is a header that is no string. The lower case of hexadecimal digits is that of ASCII.
unfoldable pub trace_id_from : Option Str → Option Str
unfolding trace_id_of
trace_id_from none = none
trace_id_from (some header) = trace_id_of (trim_end (trim_start header))

-- `[\w\-.:]`
abbrev pub is_id_unit : ℕ → Bool
is_id_unit c = is_word c || c == 45 || c == 46 || c == 58

-- A header, or the first of several.
unfoldable pub safe_request_id : Option Str → Option Str
safe_request_id none = none
safe_request_id (some value) =
    if leb 1 (length value) && leb (length value) 128 && all is_id_unit value
    then some value
    else none

-- `RequestContext`; a user is an object's fields.
pub record Scope : Type 0 where
  pub request_id : Str
  pub trace_id : Option Str
  pub method : Option Str
  pub route : Option Str
  pub user : Option Fields

-- ===== src/Node/Middleware.antt =====
-- node/src/middleware.ts: names of routes, statuses, and what a request shows of itself.
pub mod Laws
use watchup_v3_packages.Prelude.{
  ℕ, suc, ◌+◌, ◌-◌, ◌++◌, ◌==◌, ◌||◌, ◌&&◌, not, Bool, true, false, List, [], ◌∷◌, ltb, leb,
  if◌then◌else◌, Option, none, some, length, take, drop, all, map,
}
use watchup_v3_packages.Utf8.{Str, units}
use watchup_v3_packages.Json.{Json, string, object, Fields, end, field}
use watchup_v3_packages.Normalize.Scrub.{is_digit}
use watchup_v3_packages.Payload.{
  or_other, or_value, or_text, is_empty_text, Status, ok, warn, err, if_defined, spread, single,
}

-- `path.split(c)`: the parts between the units `c`, always one or more.
pub record Parts : Type 0 where
  pub head : Str
  pub tail : List Str

unfoldable pub split_at : ℕ → Str → Parts
split_at c [] = record { head = []; tail = [] }
split_at c (d ∷ s) =
    let rest = split_at c s in
    if d == c
    then record { head = []; tail = rest.head ∷ rest.tail }
    else record { head = d ∷ rest.head; tail = rest.tail }

abbrev pub is_hex : ℕ → Bool
is_hex c = is_digit c || (leb 97 c && leb c 102) || (leb 65 c && leb c 70)

abbrev pub is_dash : ℕ → Bool
is_dash c = c == 45

-- `[0-9a-f]{8}-[0-9a-f]{4}-…-[0-9a-f]{12}` over a whole segment.
unfoldable pub is_uuid : Str → Bool
is_uuid s =
    length s == 36
    && all is_hex (take 8 s)
    && all is_dash (take 1 (drop 8 s))
    && all is_hex (take 4 (drop 9 s))
    && all is_dash (take 1 (drop 13 s))
    && all is_hex (take 4 (drop 14 s))
    && all is_dash (take 1 (drop 18 s))
    && all is_hex (take 4 (drop 19 s))
    && all is_dash (take 1 (drop 23 s))
    && all is_hex (drop 24 s)

-- `[0-9a-f]{24,64}`
unfoldable pub is_long_hex : Str → Bool
is_long_hex s = leb 24 (length s) && leb (length s) 64 && all is_hex s

-- `\d+`
unfoldable pub is_number : Str → Bool
is_number s = not (is_empty_text s) && all is_digit s

abbrev pub id_segment : Str
id_segment = units ":id"

-- The three replacements: each takes whole segments behind a `/`.
unfoldable pub replace_segment : Str → Str
replace_segment s = if is_uuid s || is_long_hex s || is_number s then id_segment else s

unfoldable pub join_segments : List Str → Str
join_segments [] = []
join_segments (s ∷ ss) = 47 ∷ (s ++ join_segments ss)

-- A line end, which `.` does not match.
abbrev pub is_line_end : ℕ → Bool
is_line_end c = c == 10 || c == 13 || c == 0x2028 || c == 0x2029

-- `.replace(/(.+)\/$/, '$1')`
unfoldable pub strip_slash : Str → Str
strip_slash [] = []
strip_slash (c ∷ []) = c ∷ []
strip_slash (c ∷ d ∷ []) = if d == 47 && not (is_line_end c) then c ∷ [] else c ∷ d ∷ []
strip_slash (c ∷ d ∷ e ∷ s) = c ∷ strip_slash (d ∷ e ∷ s)

unfoldable pub normalise_segments : Parts → Str
normalise_segments parts =
    strip_slash (parts.head ++ join_segments (map replace_segment parts.tail))

-- `(path.split('?')[0] ?? '/') || '/'`
unfoldable pub normalise_path : Str → Str
normalise_path path = normalise_segments (split_at 47 (or_text (split_at 63 path).head (units "/")))

-- What is read of a request. `template` is `templateOf(req.route)`, and `header` looks a header
-- up, an array joined by ", ".
pub record Req : Type 0 where
  pub method : Option Str
  pub template : Option Str
  pub base_url : Option Str
  pub original_url : Option Str
  pub url : Option Str
  pub path : Option Str
  pub header : Str → Option Str

module _ (to_upper : Str → Str) where
  abbrev pub method_of : Req → Str
  method_of req = to_upper (or_value req.method (units "GET"))

  -- `${template === '/' && base ? '' : template}` behind the base
  unfoldable pub full_route : Str → Str → Str
  full_route base [] = base
  full_route [] (c ∷ t) = c ∷ t
  full_route (b ∷ base) (c ∷ t) = (b ∷ base) ++ (if c == 47 && is_empty_text t then [] else c ∷ t)

  unfoldable pub route_behind : Req → Option Str → Str
  route_behind req (some template) =
      method_of req ++ (32 ∷ or_text (full_route (or_value req.base_url []) template) (units "/"))
  route_behind req none =
      method_of req
      ++ (32
          ∷ normalise_path
              (or_value (or_other req.original_url (or_other req.url req.path)) (units "/")))

  unfoldable pub route_name : Req → Str
  route_name req = route_behind req req.template

unfoldable pub trace_status : ℕ → Status
trace_status code = if leb 500 code then err else if leb 400 code then warn else ok

abbrev pub safe_headers : List Str
safe_headers =
    units "user-agent"
    ∷ units "content-type"
    ∷ units "accept"
    ∷ units "referer"
    ∷ units "origin"
    ∷ units "x-request-id"
    ∷ units "x-correlation-id"
    ∷ []

abbrev pub header_field : Str → Option Str → Fields → Fields
header_field name none rest = rest
header_field name (some value) rest = field name (string value) rest

unfoldable pub header_loop : Req → List Str → Fields
header_loop req [] = end
header_loop req (name ∷ names) = header_field name (req.header name) (header_loop req names)

abbrev pub request_url : Req → Str
request_url req = or_value (or_other req.original_url req.url) (units "/")

abbrev pub text_field : Option Str → Option Json
text_field none = none
text_field (some s) = some (string s)

unfoldable pub request_details : Req → Fields
request_details req = spread (if_defined (units "method") (text_field req.method)) (
    field (units "path") (string (normalise_path (request_url req))) (
      field (units "url") (string (request_url req))
        (field (units "headers") (object (header_loop req safe_headers)) end)))

-- `Number(err?.status ?? err?.statusCode)`, if that is a whole number that is not negative.
unfoldable pub error_status : Option ℕ → ℕ
error_status none = 500
error_status (some status) = if leb 400 status && ltb status 600 then status else 500

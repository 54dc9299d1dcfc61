-- ===== src/Node/Middleware/Laws.antt =====
-- What node/src/middleware.ts hides and bounds.
use watchup_v3_packages.Prelude.{
  ◌≡◌, refl, ap, inl, inr, Bool, true, false, List, [], ◌∷◌, All, Option, none, some, Option-cases,
  Bool-cases, any, same, same_iff, same_refl, eq_of_same, sym, ◌∙◌, arith,
}
use watchup_v3_packages.Utf8.{Str, units}
use watchup_v3_packages.Json.{Json, object, Fields}
use watchup_v3_packages.Json.Access.{get_field, set_field}
use watchup_v3_packages.Payload.{spread}
use watchup_v3_packages.Node.Middleware.{
  Req, header_field, safe_headers, header_loop, text_field, request_details,
}

-- The value of `name` among the headers, if it is one of `names`.
abbrev pub shown : Req → Str → Bool → Option Json
shown req name true = text_field (req.header name)
shown req name false = none

same_sym : (s t : Str) → same s t ≡ same t s
same_sym s t = ground (arith, same_iff s t, same_iff t s)

get_field-header_field_other :
    (key n : Str) (o : Option Str) (rest : Fields)
    → same key n ≡ false
    → get_field key (header_field n o rest) ≡ get_field key rest
unfolding get_field
get_field-header_field_other key n none rest h = refl
get_field-header_field_other key n (some v) rest h = rw (same_sym n key, h) refl

shown_missing :
    (req : Req) (name : Str) (b : Bool) → req.header name ≡ none → shown req name b ≡ none
shown_missing req name true h = ap text_field h
shown_missing req name false h = refl

-- The header that the loop has just read is there, or is in no later place either.
get_field-header_field :
    (req : Req) (key : Str) (b : Bool) (o : Option Str) (rest : Fields)
    → req.header key ≡ o
    → get_field key rest ≡ shown req key b
    → get_field key (header_field key o rest) ≡ text_field o
unfolding get_field
get_field-header_field req key b none rest h r = r ∙ shown_missing req key b h
get_field-header_field req key b (some v) rest h r = rw (same_refl key) refl

header_loop-get_field :
    (req : Req) (name : Str) (names : List Str)
    → get_field name (header_loop req names) ≡ shown req name (any (same name) names)
unfolding header_loop get_field
header_loop-get_field req name [] = refl
header_loop-get_field req name (n ∷ names) =
    let rest = header_loop req names in
    let later = header_loop-get_field req name names in
    elim (Bool-cases (same name n)) [
      | inl hit ↦
          let e = eq_of_same name n hit in
          rw (hit, sym e)
            (get_field-header_field req name (any (same name) names) (req.header name) rest refl
              later)
      | inr miss ↦ rw miss (get_field-header_field_other name n (req.header n) rest miss ∙ later)
    ]

-- The headers that may be shown.
abbrev pub harmless : List Str
harmless =
    units "accept"
    ∷ units "content-type"
    ∷ units "origin"
    ∷ units "referer"
    ∷ units "user-agent"
    ∷ units "x-correlation-id"
    ∷ units "x-request-id"
    ∷ []

-- Headers that carry credentials.
abbrev pub secret : List Str
secret =
    units "authorization"
    ∷ units "cookie"
    ∷ units "proxy-authorization"
    ∷ units "set-cookie"
    ∷ units "x-api-key"
    ∷ units "x-auth-token"
    ∷ []

any-same-harmless : (name : Str) → any (same name) safe_headers ≡ any (same name) harmless
any-same-harmless name = ground arith

get_field-request_details :
    (req : Req)
    → get_field (units "headers") (request_details req)
      ≡ some (object (header_loop req safe_headers))
unfolding request_details same get_field spread set_field
get_field-request_details req = elim (Option-cases req.method) [
  | inl missing ↦ rw missing refl
  | inr (m, given) ↦ rw given refl
]

-- The details that are recorded of a request hold under `headers` the request's own value of each
-- of the seven harmless headers it has, and no other header: none of those that carry credentials.
pub header_loop-safe :
    (req : Req) (name : Str)
    → (get_field (units "headers") (request_details req)
        ≡ some (object (header_loop req safe_headers)))
      × (get_field name (header_loop req safe_headers) ≡ shown req name (any (same name) harmless))
      × All (λ s. get_field s (header_loop req safe_headers) ≡ none) secret
unfolding same get_field
header_loop-safe req name = (
  get_field-request_details req,
  header_loop-get_field req name safe_headers ∙ ap (shown req name) (any-same-harmless name),
  (
    header_loop-get_field req (units "authorization") safe_headers,
    (
      header_loop-get_field req (units "cookie") safe_headers,
      (
        header_loop-get_field req (units "proxy-authorization") safe_headers,
        (
          header_loop-get_field req (units "set-cookie") safe_headers,
          (
            header_loop-get_field req (units "x-api-key") safe_headers,
            (header_loop-get_field req (units "x-auth-token") safe_headers, tt),
          ),
        ),
      ),
    ),
  ),
)

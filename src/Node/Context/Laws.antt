-- ===== src/Node/Context/Laws.antt =====
-- What node/src/context.ts accepts from a client.
use watchup_v3_packages.Prelude.{
  ℕ, ◌≤◌, ◌≡◌, refl, ap, subst, inl, inr, Bool, true, [], ◌∷◌, arith, Option, none, some,
  Bool-cases, &&_true, ==_iff, length, take, drop, all, map, leb, ◌&&◌, ◌||◌, length-take,
  length-drop, leb→le, suc,
}
use watchup_v3_packages.Utf8.{Str}
use watchup_v3_packages.Normalize.Scrub.{is_digit, fold_case}
use watchup_v3_packages.Node.Middleware.{is_hex}
use watchup_v3_packages.Node.Context.{
  trim_start, trim_end, is_traceparent, trace_id_of, trace_id_from, is_id_unit, safe_request_id,
}

abbrev IsSafeId : Str → Option Str → Type 0
IsSafeId header none = Unit
IsSafeId header (some id) =
    (id ≡ header) × (1 ≤ length id) × (length id ≤ 128) × (all is_id_unit id ≡ true)

safe_id : (header : Str) → IsSafeId header (safe_request_id (some header))
unfolding safe_request_id
safe_id header = elim (Bool-cases (leb 1 (length header))) [
  | inr short ↦ rw short tt
  | inl some_unit ↦ elim (Bool-cases (leb (length header) 128)) [
    | inr long ↦ rw (some_unit, long) tt
    | inl fits ↦ elim (Bool-cases (all is_id_unit header)) [
      | inr odd ↦ rw (some_unit, fits, odd) tt
      | inl plain ↦
          rw (some_unit, fits, plain)
            (refl, leb→le 1 (length header) some_unit, leb→le (length header) 128 fits, plain)
    ]
  ]
]

-- A request identifier that a client sends is taken as it stands, or not at all; if it is taken it
-- has between 1 and 128 units, each a word unit, a dash, a dot or a colon.
pub safe_request_id_lem :
    (header id : Str)
    → safe_request_id (some header) ≡ some id
    → (id ≡ header) × (1 ≤ length id) × (length id ≤ 128) × (all is_id_unit id ≡ true)
safe_request_id_lem header id h = subst (IsSafeId header) h (safe_id header)

abbrev pub is_lower_hex : ℕ → Bool
is_lower_hex c = is_digit c || (leb 97 c && leb c 102)

fold_hex : (c : ℕ) → is_hex c ≡ true → is_lower_hex (fold_case c) ≡ true
fold_hex c h = ground arith

all-fold : (s : Str) → all is_hex s ≡ true → all is_lower_hex (map fold_case s) ≡ true
all-fold [] h = refl
all-fold (c ∷ s) h = ground (arith, fold_hex c, all-fold s)

length-map_fold : (s : Str) → length (map fold_case s) ≡ length s
length-map_fold [] = refl
length-map_fold (c ∷ s) = ap suc (length-map_fold s)

abbrev IsTraceId : Option Str → Type 0
IsTraceId none = Unit
IsTraceId (some id) = (length id ≡ 32) × (all is_lower_hex id ≡ true)

traceparent_parts :
    (s : Str) → is_traceparent s ≡ true → (length s ≡ 55) × (all is_hex (take 32 (drop 3 s)) ≡ true)
unfolding is_traceparent
traceparent_parts s h =
    let a = &&_true _ _ (&&_true _ _ (&&_true _ _ (&&_true _ _ (&&_true _ _ h).0).0).0).0 in
    let b = &&_true _ _ a.0 in let c = &&_true _ _ b.0 in ((==_iff (length s) 55).0 c.0, a.1)

trace_id_of-IsTraceId : (s : Str) → IsTraceId (trace_id_of s)
unfolding trace_id_of
trace_id_of-IsTraceId s = elim (Bool-cases (is_traceparent s)) [
  | inr other ↦ rw other tt
  | inl valid ↦
      let parts = traceparent_parts s valid in
      rw valid (
        omega (
          arith,
          length-map_fold (take 32 (drop 3 s)),
          length-take 32 (drop 3 s),
          length-drop 3 s,
          parts.0,
        ),
        all-fold (take 32 (drop 3 s)) parts.1,
      )
]

trace_id_from-IsTraceId : (header : Option Str) → IsTraceId (trace_id_from header)
unfolding trace_id_from
trace_id_from-IsTraceId none = tt
trace_id_from-IsTraceId (some header) = trace_id_of-IsTraceId (trim_end (trim_start header))

-- A trace identifier that is read from a header has 32 lower-case hexadecimal digits.
pub trace_id_from_lem :
    (header : Option Str) (id : Str)
    → trace_id_from header ≡ some id
    → (length id ≡ 32) × (all is_lower_hex id ≡ true)
trace_id_from_lem header id h = subst IsTraceId h (trace_id_from-IsTraceId header)

-- ===== src/Json/Bytes.antt =====
-- The size of serialized JSON in bytes, and strings that need no escape.
use watchup_v3_packages.Prelude.{
  ℕ, ◌+◌, ◌≤◌, ◌<◌, ◌≡◌, ◌≢◌, refl, [], ◌∷◌, ◌++◌, arith, length, All, All-weaken,
}
use watchup_v3_packages.Utf8.{Str, utf8_byte_length}
use watchup_v3_packages.Utf8.Append.{
  ascii_no_pair, utf8_byte_length-append, utf8_byte_length_of_ascii,
  utf8_byte_length_of_ascii_append, utf8_byte_length_of_ascii_cons,
}
use watchup_v3_packages.Json.{
  Json, Fields, end, field, escape, quote_units, quote, stringify, stringify_fields,
}

-- A character that stands for itself inside a JSON string, and takes a byte.
abbrev pub IsPlain : ℕ → Type 0
IsPlain c = (0x20 ≤ c) × (c < 0x80) × (c ≢ 0x22) × (c ≢ 0x5c)

escape_of_IsPlain : (c : ℕ) → IsPlain c → escape c ≡ c ∷ []
unfolding escape
escape_of_IsPlain c h = ground arith

quote_units_of_plain : (s : Str) → All IsPlain s → quote_units s ≡ s
unfolding quote_units
quote_units_of_plain [] h = refl
quote_units_of_plain (c ∷ []) h = escape_of_IsPlain c h.0
quote_units_of_plain (c ∷ d ∷ s) h =
    rw (ascii_no_pair c d h.0.1, quote_units)
      (rw (escape_of_IsPlain c h.0, quote_units_of_plain (d ∷ s) h.1))

-- A plain string costs its length and two quotation marks.
pub quote_bytes_of_plain : (s : Str) → All IsPlain s → utf8_byte_length (quote s) ≡ length s + 2
unfolding quote
quote_bytes_of_plain s h = rw (quote_units_of_plain s h) (
    omega (
      arith,
      utf8_byte_length_of_ascii_cons 0x22 (s ++ 0x22 ∷ []) (omega arith),
      utf8_byte_length_of_ascii_append s (0x22 ∷ []) (All-weaken (λ c (p : IsPlain c). p.1) s h),
      utf8_byte_length_of_ascii (0x22 ∷ []) (omega arith),
    ))

-- The bytes of an object's fields, with their colons and the commas between them.
unfoldable pub fields_bytes : Fields → ℕ
fields_bytes end = 0
fields_bytes (field k x end) = utf8_byte_length (quote k) + 1 + utf8_byte_length (stringify x)
fields_bytes (field k x (field l y fs)) =
    utf8_byte_length (quote k) + 2 + utf8_byte_length (stringify x) + fields_bytes (field l y fs)

name_bytes :
    (k s : Str)
    → utf8_byte_length (quote k ++ (0x3a ∷ s)) ≡ utf8_byte_length (quote k) + 1 + utf8_byte_length s
name_bytes k s = omega (
  arith,
  utf8_byte_length-append (quote k) (0x3a ∷ s) refl,
  utf8_byte_length_of_ascii_cons 0x3a s (omega arith),
)

pub stringify_fields_bytes :
    (fs : Fields) → utf8_byte_length (stringify_fields fs) ≡ fields_bytes fs
unfolding fields_bytes stringify utf8_byte_length
stringify_fields_bytes end = refl
stringify_fields_bytes (field k x end) = name_bytes k (stringify x)
stringify_fields_bytes (field k x (field l y fs)) =
    let more = stringify_fields (field l y fs) in
    omega (
      arith,
      name_bytes k (stringify x ++ (0x2c ∷ more)),
      utf8_byte_length-append (stringify x) (0x2c ∷ more) refl,
      utf8_byte_length_of_ascii_cons 0x2c more (omega arith),
      stringify_fields_bytes (field l y fs),
    )

-- `fs` serializes to no more bytes than `gs`, and neither is empty.
pub data NoLonger : Fields → Fields → Type 0 where
  no_longer :
      {k l : Str} {x y : Json} {fs gs : Fields}
      → fields_bytes (field k x fs) ≤ fields_bytes (field l y gs)
      → NoLonger (field k x fs) (field l y gs)

pub NoLonger-le : {fs gs : Fields} → NoLonger fs gs → fields_bytes fs ≤ fields_bytes gs
NoLonger-le (no_longer h) = h

pub NoLonger-field :
    (k : Str) (x : Json) {fs gs : Fields} → NoLonger fs gs → NoLonger (field k x fs) (field k x gs)
unfolding fields_bytes
NoLonger-field k x (no_longer h) = no_longer (omega arith)

-- ===== src/Utf8.antt =====
-- core/src/utf8.ts. A JavaScript string is the list of its UTF-16 code units.
pub mod Prefix
pub mod Append
pub mod Marker
mod Tests
use watchup_v3_packages.Prelude.{
  ℕ, zero, suc, ◌+◌, ◌/◌, ◌%◌, ◌++◌, ◌==◌, ◌-◌, Bool, true, false, ◌&&◌, List, [], ◌∷◌, ltb, leb,
  if◌then◌else◌, take,
}
use Prim.Native.String.{String}
use Prim.Native.Char.{Char, code}

-- UTF-16 code units, each below 2 ^ 16.
abbrev pub Str : Type 0
Str = List ℕ

-- The units of a literal of the source, whose characters all lie in the BMP.
abbrev pub units : String → Str
units String.[] = []
units (String.◌∷◌ c s) = code c ∷ units s

abbrev pub is_high_surrogate : ℕ → Bool
is_high_surrogate c = leb 0xd800 c && leb c 0xdbff

abbrev pub is_low_surrogate : ℕ → Bool
is_low_surrogate c = leb 0xdc00 c && leb c 0xdfff

-- The third test of both loops, at a unit that has a successor.
unfoldable pub is_pair : ℕ → ℕ → Bool
is_pair c d = is_high_surrogate c && is_low_surrogate d

-- The width of a unit that starts no pair: a lone surrogate is encoded as U+FFFD, three bytes.
unfoldable pub lone_width : ℕ → ℕ
lone_width c = if ltb c 0x80 then 1 else if ltb c 0x800 then 2 else 3

-- A pair starts at 0xd800, so it is no unit of one or two bytes, and may be tested first.
unfoldable pub utf8_byte_length : Str → ℕ
utf8_byte_length [] = 0
utf8_byte_length (c ∷ []) = lone_width c
utf8_byte_length (c ∷ d ∷ s) = elim (is_pair c d) [
  | true ↦ 4 + utf8_byte_length s
  | false ↦ lone_width c + utf8_byte_length (d ∷ s)
]

pub record Stop : Type 0 where
  pub bytes : ℕ
  pub end : ℕ

-- The loop of `truncateUtf8`. At its head `end` is `i`, so one index serves for both.
unfoldable pub cut_loop : ℕ → ℕ → ℕ → Str → Stop
cut_loop max_bytes bytes i [] = record { bytes = bytes; end = i }
cut_loop max_bytes bytes i (c ∷ []) =
    if ltb max_bytes (bytes + lone_width c)
    then record { bytes = bytes; end = i }
    else record { bytes = bytes + lone_width c; end = i + 1 }
cut_loop max_bytes bytes i (c ∷ d ∷ s) = elim (is_pair c d) [
  | true ↦ elim (ltb max_bytes (bytes + 4)) [
    | true ↦ record { bytes = bytes; end = i }
    | false ↦ cut_loop max_bytes (bytes + 4) (i + 2) s
  ]
  | false ↦ elim (ltb max_bytes (bytes + lone_width c)) [
    | true ↦ record { bytes = bytes; end = i }
    | false ↦ cut_loop max_bytes (bytes + lone_width c) (i + 1) (d ∷ s)
  ]
]

pub record Truncated : Type 0 where
  pub value : Str
  pub removed_bytes : ℕ

unfoldable pub truncate_utf8 : Str → ℕ → Truncated
truncate_utf8 value max_bytes =
    let total = utf8_byte_length value in
    let cut = cut_loop max_bytes 0 0 value in
    if leb total max_bytes
    then record { value = value; removed_bytes = 0 }
    else record { value = take cut.end value; removed_bytes = total - cut.bytes }

-- The decimal digits that a template literal prints for a whole number. `n / 10` falls below any
-- fuel that is at least `n`, so `decimal` never runs out.
decimal_digits : ℕ → ℕ → Str
decimal_digits zero n = (48 + n % 10) ∷ []
decimal_digits (suc fuel) n =
    let front = decimal_digits fuel (n / 10) in
    if ltb n 10 then (48 + n) ∷ [] else front ++ (48 + n % 10) ∷ []

unfoldable pub decimal : ℕ → Str
unfolding decimal_digits
decimal n = decimal_digits n n

abbrev pub marker : ℕ → Str
marker removed = units "…[truncated " ++ decimal removed ++ units " bytes]"

pub record Marked : Type 0 where
  pub value : Str
  pub truncated : Bool

unfoldable pub truncate_with_marker : Str → ℕ → Marked
truncate_with_marker value max_bytes =
    let cut = truncate_utf8 value max_bytes in
    if cut.removed_bytes == 0
    then record { value = value; truncated = false }
    else record { value = cut.value ++ marker cut.removed_bytes; truncated = true }

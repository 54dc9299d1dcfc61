-- ===== src/Utf8/Marker.antt =====
-- What `truncateWithMarker` of core/src/utf8.ts returns.
use watchup_v3_packages.Prelude.{
  ℕ, suc, ◌+◌, ◌≤◌, ◌<◌, ◌^◌, ◌≡◌, ◌∙◌, refl, ◌≢◌, ap, sym, inl, inr, true, false, [], ◌∷◌, ◌++◌,
  arith, length, Bool-cases, All-append, length-append, ◌==◌, ==_iff,
}
use watchup_v3_packages.Utf8.{
  Str, units, is_pair, lone_width, utf8_byte_length, decimal, marker, Marked, truncate_utf8,
  truncate_with_marker,
}
use watchup_v3_packages.Utf8.Prefix.{truncate_utf8-IsCut, first_width}
use watchup_v3_packages.Utf8.Append.{
  utf8_byte_length-append, utf8_byte_length_of_ascii, decimal-IsAscii, StartsPlain-of_ascii,
  IsAscii, decimal-bound,
}

tail_bytes : (n : ℕ) → utf8_byte_length (decimal n ++ units " bytes]") ≡ length (decimal n) + 7
tail_bytes n =
    utf8_byte_length_of_ascii (decimal n ++ units " bytes]")
      (All-append IsAscii (decimal n) _ (decimal-IsAscii n) (omega arith))
    ∙ length-append (decimal n) _

-- The marker's ellipsis takes three bytes and its ASCII text one each.
marker_bytes : (n : ℕ) → utf8_byte_length (marker n) ≡ 21 + length (decimal n)
unfolding utf8_byte_length is_pair lone_width
marker_bytes n = omega (
  arith,
  utf8_byte_length-append (0x2026 ∷ []) (units "[truncated " ++ (decimal n ++ units " bytes]"))
      refl,
  utf8_byte_length-append (units "[truncated ") (decimal n ++ units " bytes]")
      (StartsPlain-of_ascii _ (All-append IsAscii (decimal n) _ (decimal-IsAscii n) (omega arith))),
  tail_bytes n,
)

-- What `truncateWithMarker` says of a string: it is unchanged and within the limit, or the
-- longest prefix of whole code points within the limit, followed by the marker with the number
-- of bytes that are missing.
pub data IsMarked (value : Str) (max_bytes : ℕ) (r : Marked) : Type 0 where
  whole :
      r.value ≡ value
      → r.truncated ≡ false
      → utf8_byte_length value ≤ max_bytes
      → IsMarked value max_bytes r
  marked :
      (kept rest : Str)
      → kept ++ rest ≡ value
      → r.value ≡ kept ++ marker (utf8_byte_length rest)
      → r.truncated ≡ true
      → utf8_byte_length kept ≤ max_bytes
      → utf8_byte_length kept + utf8_byte_length rest ≡ utf8_byte_length value
      → max_bytes < utf8_byte_length kept + first_width rest
      → IsMarked value max_bytes r

-- Where bytes are missing, the next code point would not have fitted.
next_over :
    (value : Str) (m : ℕ)
    → (truncate_utf8 value m).removed_bytes ≢ 0
    → m
      < utf8_byte_length (truncate_utf8 value m).value
        + first_width (truncate_utf8-IsCut value m).rest
unfolding utf8_byte_length
next_over value m h =
    let cut = truncate_utf8-IsCut value m in
    elim cut.longest [
      | inl e ↦ absurd (h (omega (arith, cut.removed, ap utf8_byte_length e)))
      | inr over ↦ over
    ]

-- `truncateWithMarker` returns a string that fits unchanged, with `truncated` false. Of any other
-- it returns the longest prefix of whole code points within the limit and the marker that names
-- the number of missing bytes, with `truncated` true.
pub truncate_with_marker-IsMarked :
    (value : Str) (max_bytes : ℕ) → IsMarked value max_bytes (truncate_with_marker value max_bytes)
unfolding truncate_with_marker
truncate_with_marker-IsMarked value m =
    let cut = truncate_utf8-IsCut value m in
    elim (Bool-cases ((truncate_utf8 value m).removed_bytes == 0)) [
      | inl none_cut ↦ rw none_cut (
          whole refl refl
            (omega (arith, cut.whole, cut.removed, cut.fits, (==_iff _ _).0 none_cut)))
      | inr some_cut ↦ rw some_cut (
          marked (truncate_utf8 value m).value cut.rest cut.joins
            (ap (λ n. (truncate_utf8 value m).value ++ marker n) (sym cut.removed)) refl cut.fits
            cut.whole (next_over value m (λ e. ground arith)))
    ]

-- The result is over the limit by the marker at most: 21 bytes and the digits of a number.
pub truncate_with_marker_bound :
    (value : Str) (max_bytes k : ℕ)
    → utf8_byte_length value < 10 ^ suc k
    → utf8_byte_length (truncate_with_marker value max_bytes).value ≤ max_bytes + 22 + k
truncate_with_marker_bound value m k h = go (truncate_with_marker-IsMarked value m)
  where
    go :
        IsMarked value m (truncate_with_marker value m)
        → utf8_byte_length (truncate_with_marker value m).value ≤ m + 22 + k
    go (whole same _ fits) = rw same (omega arith)
    go (marked kept rest joins shown _ fits adds _) =
        rw (shown, utf8_byte_length-append kept (marker (utf8_byte_length rest)) refl)
          (omega (
            arith,
            marker_bytes (utf8_byte_length rest),
            decimal-bound k (utf8_byte_length rest) (omega arith),
          ))

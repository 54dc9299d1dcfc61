-- ===== src/Utf8/Tests.antt =====
-- Runs of core/src/utf8.ts on small inputs, and its theorems at concrete strings.
use watchup_v3_packages.Prelude.{ℕ, ◌^◌, ◌<◌, arith, ◌≡◌, refl, List, [], ◌∷◌}
use watchup_v3_packages.Utf8.{
  is_pair, lone_width, utf8_byte_length, cut_loop, truncate_utf8, truncate_with_marker,
}
use watchup_v3_packages.Utf8.Prefix.{IsCut, truncate_utf8-IsCut}
use watchup_v3_packages.Utf8.Marker.{IsMarked, truncate_with_marker-IsMarked}

-- "aé€" and a surrogate pair: 1 + 2 + 3 + 4 bytes.
abbrev mixed : List ℕ
mixed = 0x61 ∷ 0xe9 ∷ 0x20ac ∷ 0xd83d ∷ 0xde00 ∷ []

mixed_bytes : utf8_byte_length mixed ≡ 10
unfolding utf8_byte_length is_pair lone_width
mixed_bytes = refl

mixed_cut : truncate_utf8 mixed 9 ≡ record { value = 0x61 ∷ 0xe9 ∷ 0x20ac ∷ []; removed_bytes = 4 }
unfolding truncate_utf8 utf8_byte_length cut_loop is_pair lone_width
mixed_cut = refl

truncate_utf8-IsCut_example : IsCut mixed 9 (truncate_utf8 mixed 9)
truncate_utf8-IsCut_example = truncate_utf8-IsCut mixed 9

truncate_with_marker-IsMarked_example : IsMarked mixed 9 (truncate_with_marker mixed 9)
truncate_with_marker-IsMarked_example = truncate_with_marker-IsMarked mixed 9

mixed_few : utf8_byte_length mixed < 10 ^ 2
mixed_few = omega (arith, mixed_bytes)

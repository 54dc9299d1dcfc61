-- ===== src/Utf8/Append.antt =====
-- The measure of core/src/utf8.ts on strings that are put together.
use watchup_v3_packages.Prelude.{
  ℕ, zero, suc, ◌+◌, ◌≤◌, ◌<◌, ◌/◌, ◌^◌, ◌≡◌, refl, inl, inr, false, [], ◌∷◌, ◌++◌, arith, length,
  Bool-cases, All, ltb, All-append, All-weaken, length-append,
}
use native.Mathlib.Nat.{pow-suc}
use watchup_v3_packages.Utf8.{
  Str, is_low_surrogate, is_high_surrogate, is_pair, lone_width, utf8_byte_length, decimal,
  decimal_digits,
}

-- A string that no high surrogate before it can pair with.
abbrev pub StartsPlain : Str → Type 0
StartsPlain [] = Unit
StartsPlain (c ∷ s) = is_low_surrogate c ≡ false

is_pair_of_low : (c d : ℕ) → is_low_surrogate d ≡ false → is_pair c d ≡ false
unfolding is_pair
is_pair_of_low c d h =
    rw h (elim (Bool-cases (is_high_surrogate c)) [ inl e ↦ rw e | inr e ↦ rw e ])

pub utf8_byte_length-append :
    (s t : Str)
    → StartsPlain t
    → utf8_byte_length (s ++ t) ≡ utf8_byte_length s + utf8_byte_length t
unfolding utf8_byte_length
utf8_byte_length-append [] t h = omega arith
utf8_byte_length-append (c ∷ []) [] h = omega arith
utf8_byte_length-append (c ∷ []) (d ∷ t) h = rw (is_pair_of_low c d h, utf8_byte_length)
utf8_byte_length-append (c ∷ d ∷ s) t h = elim (Bool-cases (is_pair c d)) [
  | inl pair ↦ rw (pair, utf8_byte_length) (omega (arith, utf8_byte_length-append s t h))
  | inr lone ↦ rw (lone, utf8_byte_length) (omega (arith, utf8_byte_length-append (d ∷ s) t h))
]

abbrev pub IsAscii : ℕ → Type 0
IsAscii c = c < 0x80

pub lone_width_of_IsAscii : (c : ℕ) → IsAscii c → lone_width c ≡ 1
unfolding lone_width
lone_width_of_IsAscii c h = ground arith

pub ascii_no_pair : (c d : ℕ) → IsAscii c → is_pair c d ≡ false
unfolding is_pair
ascii_no_pair c d h = ground arith

-- ASCII text takes a byte a unit.
pub utf8_byte_length_of_ascii : (s : Str) → All IsAscii s → utf8_byte_length s ≡ length s
unfolding utf8_byte_length
utf8_byte_length_of_ascii [] h = refl
utf8_byte_length_of_ascii (c ∷ []) h = lone_width_of_IsAscii c h.0
utf8_byte_length_of_ascii (c ∷ d ∷ s) h =
    rw (ascii_no_pair c d h.0, utf8_byte_length)
      (omega (arith, lone_width_of_IsAscii c h.0, utf8_byte_length_of_ascii (d ∷ s) h.1))

pub StartsPlain-of_ascii : (s : Str) → All IsAscii s → StartsPlain s
StartsPlain-of_ascii [] h = tt
StartsPlain-of_ascii (c ∷ s) h = ground arith

abbrev pub IsDigit : ℕ → Type 0
IsDigit c = (48 ≤ c) × (c < 58)

decimal_digits-IsDigit : (fuel n : ℕ) → All IsDigit (decimal_digits fuel n)
unfolding decimal_digits
decimal_digits-IsDigit zero n = omega arith
decimal_digits-IsDigit (suc fuel) n = elim (Bool-cases (ltb n 10)) [
  | inl small ↦ rw small (ground arith)
  | inr big ↦ rw big (
      All-append IsDigit (decimal_digits fuel (n / 10)) _ (decimal_digits-IsDigit fuel (n / 10))
        (omega arith))
]

pub decimal-IsDigit : (n : ℕ) → All IsDigit (decimal n)
unfolding decimal
decimal-IsDigit n = decimal_digits-IsDigit n n

pub decimal-IsAscii : (n : ℕ) → All IsAscii (decimal n)
decimal-IsAscii n = All-weaken (λ c (h : IsDigit c). omega arith) (decimal n) (decimal-IsDigit n)

pub utf8_byte_length_of_ascii_cons :
    (c : ℕ) (t : Str) → IsAscii c → utf8_byte_length (c ∷ t) ≡ 1 + utf8_byte_length t
unfolding utf8_byte_length
utf8_byte_length_of_ascii_cons c [] h = omega (arith, lone_width_of_IsAscii c h)
utf8_byte_length_of_ascii_cons c (d ∷ t) h =
    rw (ascii_no_pair c d h, utf8_byte_length) (omega (arith, lone_width_of_IsAscii c h))

-- ASCII text in front of any string adds a byte a unit.
pub utf8_byte_length_of_ascii_append :
    (s t : Str) → All IsAscii s → utf8_byte_length (s ++ t) ≡ length s + utf8_byte_length t
utf8_byte_length_of_ascii_append [] t h = omega arith
utf8_byte_length_of_ascii_append (c ∷ s) t h =
    omega (
      arith,
      utf8_byte_length_of_ascii_cons c (s ++ t) h.0,
      utf8_byte_length_of_ascii_append s t h.1,
    )

decimal_digits-bound :
    (k fuel n : ℕ) → n ≤ fuel → n < 10 ^ (suc k) → length (decimal_digits fuel n) ≤ suc k
unfolding decimal_digits
decimal_digits-bound k zero n e h = omega arith
decimal_digits-bound zero (suc fuel) n e h = ground arith
decimal_digits-bound (suc k) (suc fuel) n e h =
    let below : n / 10 < 10 ^ suc k = omega (arith, pow-suc 10 (suc k)) in
    let ih : length (decimal_digits fuel (n / 10)) ≤ suc k =
      decimal_digits-bound k fuel (n / 10) (omega arith) below in
    elim (Bool-cases (ltb n 10)) [
      | inl small ↦ rw small (omega arith)
      | inr big ↦ rw (big, length-append (decimal_digits fuel (n / 10)) _) (omega (arith, ih))
    ]

pub decimal-bound : (k n : ℕ) → n < 10 ^ (suc k) → length (decimal n) ≤ suc k
unfolding decimal
decimal-bound k n h = decimal_digits-bound k n n (omega arith) h

-- ===== src/Utf8/Prefix.antt =====
-- What core/src/utf8.ts cuts off: a prefix of whole code points, the longest one that fits.
use watchup_v3_packages.Prelude.{
  ℕ, zero, suc, ◌+◌, ◌≤◌, ◌<◌, ◌≡◌, refl, ◌⊎◌, inl, inr, true, false, [], ◌∷◌, ◌++◌, arith, ltb,
  leb, take, drop, take-append-drop, Bool-cases, append-nil, ltb→lt, ltb→le, leb→le,
}
use watchup_v3_packages.Utf8.{
  Str, is_pair, lone_width, utf8_byte_length, Stop, cut_loop, Truncated, truncate_utf8,
}

-- The bytes of the first code point of a string.
abbrev pub first_width : Str → ℕ
first_width [] = 0
first_width (c ∷ []) = lone_width c
first_width (c ∷ d ∷ s) = elim (is_pair c d) [ true ↦ 4 | false ↦ lone_width c ]

pub first_width-le : (s : Str) → first_width s ≤ utf8_byte_length s
unfolding utf8_byte_length
first_width-le [] = omega arith
first_width-le (c ∷ []) = omega arith
first_width-le (c ∷ d ∷ s) = elim (Bool-cases (is_pair c d)) [
  | inl pair ↦ rw (pair, first_width, utf8_byte_length) (omega arith)
  | inr lone ↦ rw (lone, first_width, utf8_byte_length) (omega arith)
]

lone_step :
    (c d : ℕ) (s : Str) (k : ℕ)
    → is_pair c d ≡ false
    → utf8_byte_length (c ∷ take k (d ∷ s)) ≡ lone_width c + utf8_byte_length (take k (d ∷ s))
unfolding utf8_byte_length
lone_step c d s zero h = omega arith
lone_step c d s (suc k) h = rw (h, utf8_byte_length)

-- What a run of the loop has done from `bytes` and `i` on: it took `count` units.
record Ran (max_bytes bytes i : ℕ) (s : Str) (r : Stop) : Type 0 where
  count : ℕ
  ends : r.end ≡ i + count
  counted : r.bytes ≡ bytes + utf8_byte_length (take count s)
  whole : utf8_byte_length (take count s) + utf8_byte_length (drop count s) ≡ utf8_byte_length s
  fits : bytes ≤ max_bytes → r.bytes ≤ max_bytes
  longest : (drop count s ≡ []) ⊎ (max_bytes < r.bytes + first_width (drop count s))

-- The loop stops before a code point that does not fit.
stopped :
    (m b i : ℕ) (s : Str) → m < b + first_width s → Ran m b i s (record { bytes = b; end = i })
unfolding utf8_byte_length
stopped m b i s over = record {
  count = 0;
  ends = omega arith;
  counted = omega arith;
  whole = omega arith;
  fits = λ h. h;
  longest = inr over;
}

-- One round over a pair, then over a unit that starts no pair.
pair_more :
    (m b i c d : ℕ) (s : Str) (r : Stop)
    → is_pair c d ≡ true
    → b + 4 ≤ m
    → Ran m (b + 4) (i + 2) s r
    → Ran m b i (c ∷ d ∷ s) r
unfolding utf8_byte_length
pair_more m b i c d s r pair fit more = record {
  count = suc (suc more.count);
  ends = omega arith;
  counted = rw (pair, utf8_byte_length) (omega arith);
  whole = rw (pair, utf8_byte_length) (omega arith);
  fits = λ h. more.fits fit;
  longest = more.longest;
}

lone_more :
    (m b i c d : ℕ) (s : Str) (r : Stop)
    → is_pair c d ≡ false
    → b + lone_width c ≤ m
    → Ran m (b + lone_width c) (i + 1) (d ∷ s) r
    → Ran m b i (c ∷ d ∷ s) r
unfolding utf8_byte_length
lone_more m b i c d s r lone fit more = record {
  count = suc more.count;
  ends = omega arith;
  counted = rw (lone_step c d s more.count lone) (omega arith);
  whole = rw (lone_step c d s more.count lone) (rw (lone, utf8_byte_length) (omega arith));
  fits = λ h. more.fits fit;
  longest = more.longest;
}

cut_loop-Ran :
    (max_bytes bytes i : ℕ) (s : Str) → Ran max_bytes bytes i s (cut_loop max_bytes bytes i s)
unfolding cut_loop utf8_byte_length
cut_loop-Ran m b i [] = record {
  count = 0;
  ends = omega arith;
  counted = omega arith;
  whole = refl;
  fits = λ h. h;
  longest = inl refl;
}
cut_loop-Ran m b i (c ∷ []) = elim (Bool-cases (ltb m (b + lone_width c))) [
  | inl over ↦ rw over (stopped m b i (c ∷ []) (ground arith))
  | inr fit ↦ rw fit (record {
    count = 1;
    ends = refl;
    counted = refl;
    whole = omega arith;
    fits = λ h. ground arith;
    longest = inl refl;
  })
]
cut_loop-Ran m b i (c ∷ d ∷ s) = elim (Bool-cases (is_pair c d)) [
  | inl pair ↦ elim (Bool-cases (ltb m (b + 4))) [
    | inl over ↦
        rw (pair, over, cut_loop)
          (stopped m b i (c ∷ d ∷ s) (rw (pair, first_width) (ltb→lt _ _ over)))
    | inr fit ↦
        rw (pair, fit, cut_loop)
          (pair_more m b i c d s _ pair (ltb→le _ _ fit) (cut_loop-Ran m (b + 4) (i + 2) s))
  ]
  | inr lone ↦ elim (Bool-cases (ltb m (b + lone_width c))) [
    | inl over ↦
        rw (lone, over, cut_loop)
          (stopped m b i (c ∷ d ∷ s) (rw (lone, first_width) (ltb→lt _ _ over)))
    | inr fit ↦
        rw (lone, fit, cut_loop)
          (lone_more m b i c d s _ lone (ltb→le _ _ fit)
            (cut_loop-Ran m (b + lone_width c) (i + 1) (d ∷ s)))
  ]
]

-- `rest` is what `truncateUtf8` has cut off `value`, with the result `r`.
pub record IsCut (value : Str) (max_bytes : ℕ) (r : Truncated) : Type 0 where
  pub rest : Str
  pub joins : r.value ++ rest ≡ value
  pub removed : utf8_byte_length rest ≡ r.removed_bytes
  pub whole : utf8_byte_length r.value + utf8_byte_length rest ≡ utf8_byte_length value
  pub fits : utf8_byte_length r.value ≤ max_bytes
  pub longest : (rest ≡ []) ⊎ (max_bytes < utf8_byte_length r.value + first_width rest)

-- The result of `truncateUtf8` is a prefix of the input; the part cut off has the reported
-- number of bytes; the cut splits no code point, since the bytes of the two parts add up to
-- those of the input; the prefix takes at most `maxBytes` bytes; and unless nothing is cut off,
-- the next code point would not have fitted.
pub truncate_utf8-IsCut :
    (value : Str) (max_bytes : ℕ) → IsCut value max_bytes (truncate_utf8 value max_bytes)
unfolding truncate_utf8 utf8_byte_length
truncate_utf8-IsCut value m = elim (Bool-cases (leb (utf8_byte_length value) m)) [
  | inl fit ↦ rw fit (record {
    rest = [];
    joins = append-nil value;
    removed = refl;
    whole = omega arith;
    fits = leb→le _ _ fit;
    longest = inl refl;
  })
  | inr over ↦
      let run = cut_loop-Ran m 0 0 value in
      let n : (cut_loop m 0 0 value).end ≡ run.count = omega (arith, run.ends) in
      rw (over, n)
        (record {
          rest = drop run.count value;
          joins = take-append-drop run.count value;
          removed = omega (arith, run.counted, run.whole);
          whole = run.whole;
          fits = omega (arith, run.counted, run.fits (omega arith));
          longest = elim run.longest [ inl e ↦ inl e | inr h ↦ inr (omega (arith, run.counted)) ];
        })
]

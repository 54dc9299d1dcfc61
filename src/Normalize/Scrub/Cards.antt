-- ===== src/Normalize/Scrub/Cards.antt =====
-- Card numbers and the whole of `scrubString` of core/src/normalize.ts.
use watchup_v3_packages.Prelude.{
  ℕ, ◌+◌, ◌-◌, ◌%◌, ◌*◌, ◌==◌, ◌||◌, ◌&&◌, not, Bool, true, false, [], ◌∷◌, ltb, leb, if◌then◌else◌,
  none, some, length, take, any, keep_if,
}
use watchup_v3_packages.Utf8.{Str, units}
use watchup_v3_packages.Normalize.Scrub.{
  redacted, is_digit, is_word, count_while, exactly, ignoring_case, Match, replace_all, auth_scheme,
  live_prefix, live_key, sensitive_query, holds_literal,
}

-- The two variables of the loop of `luhnValid`, which runs from the end of the text.
pub record Luhn : Type 0 where
  pub sum : ℕ
  pub double : Bool

-- What a digit adds.
abbrev pub luhn_weight : Bool → ℕ → ℕ
luhn_weight false d = d
luhn_weight true d = if ltb 9 (d * 2) then d * 2 - 9 else d * 2

unfoldable pub luhn_loop : Str → Luhn
luhn_loop [] = record { sum = 0; double = false }
luhn_loop (c ∷ digits) =
    let r = luhn_loop digits in
    record { sum = r.sum + luhn_weight r.double (c - 48); double = not r.double }

unfoldable pub luhn_valid : Str → Bool
luhn_valid digits = (luhn_loop digits).sum % 10 == 0

abbrev pub is_separator : ℕ → Bool
is_separator c = c == 32 || c == 45

-- The longest match of `(?:\d[ -]?){12,18}\d\b`: `k` digits and `n` units lie behind, and `best` is
-- the length of the longest match so far, or 0.
unfoldable pub card_length : ℕ → ℕ → ℕ → Str → ℕ
card_length k n best [] = best
card_length k n best (c ∷ []) = if is_digit c && leb 12 k && leb k 18 then n + 1 else best
card_length k n best (c ∷ d ∷ s) =
    let found = if leb 12 k && leb k 18 && not (is_word d) then n + 1 else best in
    let next = card_length (k + 1) (n + 1) found (d ∷ s) in
    let behind_separator = card_length (k + 1) (n + 2) found s in
    if not (is_digit c) || ltb 18 k then best else if is_separator d then behind_separator else next

unfoldable pub card_match : Str → ℕ → Match
card_match s n =
    let digits = keep_if (λ c. not (is_separator c)) (take n s) in
    if leb 13 (length digits) && leb (length digits) 19 && luhn_valid digits
    then some (redacted, n)
    else some (take n s, n)

-- CARD_CANDIDATE and the function that replaces it.
unfoldable pub card_number : Bool → Str → Match
card_number true s = none
card_number false s = let n = card_length 0 0 0 s in if n == 0 then none else card_match s n

-- `/\d{4}/.test`
unfoldable pub has_four_digits : Str → Bool
has_four_digits [] = false
has_four_digits (c ∷ s) = leb 4 (count_while is_digit (c ∷ s)) || has_four_digits s

abbrev pub replaced : (Bool → Str → Match) → Str → Str
replaced m = replace_all m false 0

-- The four steps of `scrubString`, each behind its test.
unfoldable pub scrub_auth : Str → Str
scrub_auth s =
    if holds_literal ignoring_case (units "bearer") s
      || holds_literal ignoring_case (units "basic") s
    then replaced auth_scheme s
    else s

unfoldable pub scrub_live : Str → Str
scrub_live s = if holds_literal exactly live_prefix s then replaced live_key s else s

unfoldable pub scrub_query : Str → Str
scrub_query s = if any (exactly 61) s then replaced sensitive_query s else s

unfoldable pub scrub_cards : Str → Str
scrub_cards s = if has_four_digits s then replaced card_number s else s

unfoldable pub scrub_string : Str → Str
scrub_string value =
    if ltb (length value) 8
    then value
    else scrub_cards (scrub_query (scrub_live (scrub_auth value)))

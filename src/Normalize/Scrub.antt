-- ===== src/Normalize/Scrub.antt =====
-- The text patterns of core/src/normalize.ts. Each of its regular expressions is a function that
-- says, at a place in a text, what the match there becomes and how long it is.
pub mod Cards
pub mod Luhn
use watchup_v3_packages.Prelude.{
  ℕ, zero, suc, ◌+◌, ◌-◌, ◌%◌, ◌*◌, ◌++◌, ◌==◌, ◌||◌, ◌&&◌, not, Bool, true, false, List, [], ◌∷◌,
  ltb, leb, if◌then◌else◌, Option, none, some, length, take, drop, any, keep_if,
}
use watchup_v3_packages.Utf8.{Str, units}

abbrev pub redacted : Str
redacted = units "[REDACTED]"

abbrev pub is_digit : ℕ → Bool
is_digit c = leb 48 c && leb c 57

abbrev pub is_alnum : ℕ → Bool
is_alnum c = is_digit c || (leb 65 c && leb c 90) || (leb 97 c && leb c 122)

-- `\w`
abbrev pub is_word : ℕ → Bool
is_word c = is_alnum c || c == 95

-- `\s`
abbrev pub is_space : ℕ → Bool
is_space c =
    (leb 9 c && leb c 13)
    || c == 32
    || c == 160
    || c == 0x1680
    || (leb 0x2000 c && leb c 0x200a)
    || c == 0x2028
    || c == 0x2029
    || c == 0x202f
    || c == 0x205f
    || c == 0x3000
    || c == 0xfeff

-- A letter as the flag `i` compares it, which folds ASCII letters only where one side is ASCII.
abbrev pub fold_case : ℕ → ℕ
fold_case c = if leb 65 c && leb c 90 then c + 32 else c

-- The length of the longest prefix whose units all pass.
unfoldable pub count_while : (ℕ → Bool) → Str → ℕ
count_while p [] = 0
count_while p (c ∷ s) = let more = count_while p s in if p c then suc more else 0

-- What stands behind a literal, if the text begins with it; `same` compares two units.
unfoldable pub strip : (ℕ → ℕ → Bool) → Str → Str → Option Str
strip eq [] s = some s
strip eq (p ∷ ps) [] = none
strip eq (p ∷ ps) (c ∷ s) = let rest = strip eq ps s in if eq p c then rest else none

abbrev pub exactly : ℕ → ℕ → Bool
exactly p c = p == c

abbrev pub ignoring_case : ℕ → ℕ → Bool
ignoring_case p c = p == fold_case c

-- A match: what it becomes, and its length.
abbrev pub Match : Type 0
Match = Option (Str × ℕ)

-- `replace` with the flag `g`: a pattern sees whether a word unit stands in front, and the text.
-- `skip` counts the units of the last match that are still ahead.
unfoldable pub replace_all : (Bool → Str → Match) → Bool → ℕ → Str → Str
replace_all m before skip [] = []
replace_all m before (suc skip) (c ∷ s) = replace_all m (is_word c) skip s
replace_all m before zero (c ∷ s) = elim (m before (c ∷ s)) [
  | none ↦ c ∷ replace_all m (is_word c) zero s
  | some found ↦ found.0 ++ replace_all m (is_word c) (found.1 - 1) s
]

-- `[A-Za-z0-9\-._~+/]`
abbrev pub is_credential : ℕ → Bool
is_credential c = is_alnum c || c == 45 || c == 46 || c == 95 || c == 126 || c == 43 || c == 47

-- `\s+[A-Za-z0-9\-._~+/]+=*` behind a scheme: its length, or 0 for no match.
unfoldable pub credential_length : Str → ℕ
credential_length s =
    let spaces = count_while is_space s in
    let token = count_while is_credential (drop spaces s) in
    let padding = count_while (exactly 61) (drop (spaces + token) s) in
    if spaces == 0 || token == 0 then 0 else spaces + token + padding

unfoldable pub auth_behind : ℕ → Str → Option Str → Match
auth_behind n s none = none
auth_behind n s (some rest) =
    let more = credential_length rest in
    if more == 0 then none else some (take n s ++ (32 ∷ redacted), n + more)

abbrev pub or_else {ℓ} : {A : Type ℓ} → Option A → Option A → Option A
or_else (some a) o = some a
or_else none o = o

-- AUTH_SCHEME
unfoldable pub auth_scheme : Bool → Str → Match
auth_scheme true s = none
auth_scheme false s =
    or_else (auth_behind 6 s (strip ignoring_case (units "bearer") s))
      (auth_behind 5 s (strip ignoring_case (units "basic") s))

abbrev pub live_prefix : Str
live_prefix = units "wup_live_"

unfoldable pub live_behind : Option Str → Match
live_behind none = none
live_behind (some rest) =
    let n = count_while is_alnum rest in if n == 0 then none else some (redacted, 9 + n)

-- LIVE_KEY
unfoldable pub live_key : Bool → Str → Match
live_key true s = none
live_key false s = live_behind (strip exactly live_prefix s)

-- `[^&#\s"']`
abbrev pub is_query_value : ℕ → Bool
is_query_value c = not (c == 38 || c == 35 || is_space c || c == 34 || c == 39)

abbrev pub query_names : List Str
query_names =
    units "token="
    ∷ units "access_token="
    ∷ units "password="
    ∷ units "api_key="
    ∷ units "apikey="
    ∷ units "secret="
    ∷ units "key="
    ∷ []

-- The alternatives of SENSITIVE_QUERY with the `=` behind them; `first` is the `?` or `&`.
unfoldable pub query_behind : ℕ → List Str → Str → Match
query_behind first [] s = none
query_behind first (name ∷ names) s = elim (strip ignoring_case name s) [
  | none ↦ query_behind first names s
  | some rest ↦ some (
    first ∷ (take (length name) s ++ redacted),
    suc (length name + count_while is_query_value rest),
  )
]

-- SENSITIVE_QUERY
unfoldable pub sensitive_query : Bool → Str → Match
sensitive_query before [] = none
sensitive_query before (c ∷ s) = if c == 63 || c == 38 then query_behind c query_names s else none

abbrev is_some {ℓ} : {A : Type ℓ} → Option A → Bool
is_some none = false
is_some (some a) = true

-- A literal stands somewhere in a text.
unfoldable pub holds_literal : (ℕ → ℕ → Bool) → Str → Str → Bool
holds_literal eq p [] = is_some (strip eq p [])
holds_literal eq p (c ∷ s) = is_some (strip eq p (c ∷ s)) || holds_literal eq p s

-- ===== src/Normalize/Keys.antt =====
-- The sensitive keys of core/src/normalize.ts. `toLowerCase` rests on the Unicode tables, so it is a
-- parameter.
use watchup_v3_packages.Prelude.{ℕ, ◌==◌, ◌||◌, not, Bool, List, [], ◌∷◌, any, keep_if, same}
use watchup_v3_packages.Utf8.{Str, units}
use watchup_v3_packages.Flags.{includes}

abbrev pub sensitive_keys : List Str
sensitive_keys =
    units "authorization"
    ∷ units "proxyauthorization"
    ∷ units "cookie"
    ∷ units "setcookie"
    ∷ units "password"
    ∷ units "passwd"
    ∷ units "pwd"
    ∷ units "secret"
    ∷ units "clientsecret"
    ∷ units "apikey"
    ∷ units "xapikey"
    ∷ units "apisecret"
    ∷ units "privatekey"
    ∷ units "creditcard"
    ∷ units "cardnumber"
    ∷ units "ccnumber"
    ∷ units "cvv"
    ∷ units "cvc"
    ∷ units "ssn"
    ∷ units "sessiontoken"
    ∷ []

abbrev pub sensitive_substrings : List Str
sensitive_substrings = units "password" ∷ units "secret" ∷ units "credential" ∷ []

-- `[-_. ]`
abbrev pub is_key_separator : ℕ → Bool
is_key_separator c = c == 45 || c == 95 || c == 46 || c == 32

-- `s.endsWith(p)`
unfoldable pub ends_with : Str → Str → Bool
ends_with p [] = same [] p
ends_with p (c ∷ s) = same (c ∷ s) p || ends_with p s

module _ (to_lower : Str → Str) where
  unfoldable pub canonical_key : Str → Str
  canonical_key key = keep_if (λ c. not (is_key_separator c)) (to_lower key)

  -- The tests on the canonical key; `extra` is the set of the caller's canonical keys.
  unfoldable pub is_sensitive_canonical : List Str → Str → Bool
  is_sensitive_canonical extra k =
      any (same k) sensitive_keys
      || any (same k) extra
      || ends_with (units "token") k
      || any (λ part. includes part k) sensitive_substrings

  unfoldable pub is_sensitive_key : List Str → Str → Bool
  is_sensitive_key extra key = is_sensitive_canonical extra (canonical_key key)

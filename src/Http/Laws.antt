-- ===== src/Http/Laws.antt =====
-- What core/src/http.ts reads from a response.
use watchup_v3_packages.Prelude.{
  ℕ, ◌≤◌, ◌≡◌, subst, ◌↔◌, ◌⊎◌, inl, inr, true, [], ◌∷◌, arith, Option, none, some, Option-cases, ℤ,
  pos, negsuc, sub_ℕ,
}
use watchup_v3_packages.Utf8.{Str}
use watchup_v3_packages.Http.{
  is_retryable_status, cap_ms, to_ms, max_retry_after_ms, Platform, retry_after_text,
  parse_retry_after,
}

-- The statuses that are worth another attempt: 408, 425, 429, and all from 500 on.
pub is_retryable_status_iff :
    (status : ℕ)
    → (is_retryable_status status ≡ true)
      ↔ ((status ≡ 408) ⊎ (status ≡ 425) ⊎ (status ≡ 429) ⊎ (500 ≤ status))
unfolding is_retryable_status
is_retryable_status_iff status = ground arith

cap_ms_bound : (z : ℤ) → cap_ms z ≤ max_retry_after_ms
cap_ms_bound (pos ms) = omega arith
cap_ms_bound (negsuc ms) = omega arith

abbrev IsWithin : Option ℕ → Type 0
IsWithin none = Unit
IsWithin (some ms) = ms ≤ max_retry_after_ms

module _ (platform : Platform) where
  open platform use {to_number, date_parse}

  retry_after_text_bound : (value : Str) (now : ℕ) → IsWithin (retry_after_text platform value now)
  unfolding retry_after_text
  retry_after_text_bound value now = elim (Option-cases (to_number value)) [
    | inr (z, e) ↦ rw (e, retry_after_text) (cap_ms_bound (to_ms z))
    | inl e ↦ elim (Option-cases (date_parse value)) [
      | inr (at, f) ↦ rw (e, f, retry_after_text) (cap_ms_bound (sub_ℕ at now))
      | inl f ↦ rw (e, f, retry_after_text) tt
    ]
  ]

  -- A `Retry-After` header never delays the next attempt by more than a minute.
  pub parse_retry_after_bound :
      (value : Option Str) (now ms : ℕ)
      → parse_retry_after platform value now ≡ some ms
      → ms ≤ max_retry_after_ms
  unfolding parse_retry_after
  parse_retry_after_bound none now ms h = cc
  parse_retry_after_bound (some []) now ms h = cc
  parse_retry_after_bound (some (c ∷ s)) now ms h =
      subst IsWithin h (retry_after_text_bound (c ∷ s) now)

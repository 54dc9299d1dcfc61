-- ===== src/Normalize/Clean.antt =====
-- Clean JSON data, for core/src/normalize.ts: depth, sizes and sensitive keys.
use watchup_v3_packages.Prelude.{
  ℕ, zero, suc, ◌+◌, ◌-◌, ◌≤◌, ◌≡◌, refl, sym, ap, subst, ◌∙◌, ◌⊎◌, inl, inr, false, List, [], ◌∷◌,
  arith, Option, none, some, Bool-cases, Option-cases, leb, same, same_iff,
}
use watchup_v3_packages.Utf8.{Str, decimal}
use watchup_v3_packages.Json.{
  Json, null, bool, number, string, array, object, Items, nil, cons, Fields, end, field,
}
use watchup_v3_packages.Json.Access.{set_field}
use watchup_v3_packages.Normalize.Scrub.{redacted}
use watchup_v3_packages.Normalize.Keys.{is_sensitive_key}
use watchup_v3_packages.Normalize.Walk.{
  Value, Entry, Out, proto_key, assign, is_in, dropped_key, or_null, or_same_out, max_keys,
  max_array, error_loop, list_loop, entry_loop,
}

abbrev pub items_length : Items → ℕ
items_length nil = 0
items_length (cons x xs) = suc (items_length xs)

module _ (to_lower : Str → Str) (extra : List Str) where
  -- At most `n` levels of arrays and objects, arrays of at most 201 items, and under each sensitive
  -- key nothing but the mark.
  unfoldable mutual
    pub IsClean : ℕ → Json → Type 0
    IsClean n null = Unit
    IsClean n (bool b) = Unit
    IsClean n (number t) = Unit
    IsClean n (string s) = Unit
    IsClean zero (array xs) = ⊥
    IsClean (suc n) (array xs) = (items_length xs ≤ max_array + 1) × AreClean n xs
    IsClean zero (object fs) = ⊥
    IsClean (suc n) (object fs) = HasClean n fs

    pub AreClean : ℕ → Items → Type 0
    AreClean n nil = Unit
    AreClean n (cons x xs) = IsClean n x × AreClean n xs

    pub HasClean : ℕ → Fields → Type 0
    HasClean n end = Unit
    HasClean n (field k x fs) =
        ((is_sensitive_key to_lower extra k ≡ false) ⊎ (x ≡ string redacted))
        × IsClean n x
        × HasClean n fs

  mutual
    unfolding IsClean

    pub weaken : (n : ℕ) (j : Json) → IsClean n j → IsClean (suc n) j
    weaken n null h = tt
    weaken n (bool b) h = tt
    weaken n (number t) h = tt
    weaken n (string s) h = tt
    weaken zero (array xs) h = elim h [ ]
    weaken (suc n) (array xs) h = (h.0, weaken_items n xs h.1)
    weaken zero (object fs) h = elim h [ ]
    weaken (suc n) (object fs) h = weaken_fields n fs h

    weaken_items : (n : ℕ) (xs : Items) → AreClean n xs → AreClean (suc n) xs
    weaken_items n nil h = tt
    weaken_items n (cons x xs) h = (weaken n x h.0, weaken_items n xs h.1)

    weaken_fields : (n : ℕ) (fs : Fields) → HasClean n fs → HasClean (suc n) fs
    weaken_fields n end h = tt
    weaken_fields n (field k x fs) h = (h.0, weaken n x h.1, weaken_fields n fs h.2)

  -- A value may stand under a key.
  abbrev pub MayStand : Str → Json → Type 0
  MayStand k x = (is_sensitive_key to_lower extra k ≡ false) ⊎ (x ≡ string redacted)

  set_field-HasClean :
      (n : ℕ) (k : Str) (x : Json) (fs : Fields)
      → MayStand k x
      → IsClean n x
      → HasClean n fs
      → HasClean n (set_field k x fs)
  unfolding set_field IsClean
  set_field-HasClean n k x end m c h = (m, c, tt)
  set_field-HasClean n k x (field l y fs) m c h = elim (Bool-cases (same l k)) [
    | inl hit ↦ rw hit (subst (λ i. MayStand i x) (sym ((same_iff l k).0 hit)) m, c, h.2)
    | inr miss ↦ rw miss (h.0, h.1, set_field-HasClean n k x fs m c h.2)
  ]

  assign-HasClean :
      (n : ℕ) (k : Str) (x : Json) (fs : Fields)
      → MayStand k x
      → IsClean n x
      → HasClean n fs
      → HasClean n (assign k x fs)
  unfolding assign
  assign-HasClean n k x fs m c h = elim (Bool-cases (same k proto_key)) [
    | inl hit ↦ rw hit h
    | inr miss ↦ rw miss (set_field-HasClean n k x fs m c h)
  ]

  abbrev pub OutClean : ℕ → Out → Type 0
  OutClean n none = Unit
  OutClean n (some none) = Unit
  OutClean n (some (some j)) = IsClean n j

  abbrev pub FieldsClean : ℕ → Option Fields → Type 0
  FieldsClean n none = Unit
  FieldsClean n (some fs) = HasClean n fs

  abbrev pub ItemsClean : ℕ → ℕ → Option Items → Type 0
  ItemsClean n most none = Unit
  ItemsClean n most (some xs) = (items_length xs ≤ most) × AreClean n xs

  redacted-IsClean : (n : ℕ) → IsClean n (string redacted)
  unfolding IsClean
  redacted-IsClean n = tt

  number-IsClean : (n : ℕ) (t : Str) → IsClean n (number t)
  unfolding IsClean
  number-IsClean n t = tt

  module _ (n : ℕ) (w : Value → Out) (clean : (v : Value) → OutClean n (w v)) where
    or_same_out-HasClean :
        (k : Str) (o : Option Json) (out : Fields)
        → is_sensitive_key to_lower extra k ≡ false
        → OutClean n (some o)
        → HasClean n out
        → HasClean n (or_same_out k o out)
    or_same_out-HasClean k none out m c h = h
    or_same_out-HasClean k (some j) out m c h = assign-HasClean n k j out (inl m) c h

    pub error_loop-FieldsClean :
        (es : List Entry) (out : Fields)
        → HasClean n out
        → FieldsClean n (error_loop to_lower extra w out es)
    unfolding error_loop
    error_loop-FieldsClean [] out h = h
    error_loop-FieldsClean (e ∷ es) out h = elim (Bool-cases (is_in e.0 out)) [
      | inl known ↦ rw known (error_loop-FieldsClean es out h)
      | inr fresh ↦ elim (Bool-cases (is_sensitive_key to_lower extra e.0)) [
        | inl secret ↦
            rw (fresh, secret)
              (error_loop-FieldsClean es (assign e.0 (string redacted) out)
                (assign-HasClean n e.0 (string redacted) out (inr refl) (redacted-IsClean n) h))
        | inr open_key ↦ elim (Option-cases e.1) [
          | inl throws ↦ rw (fresh, open_key, throws, error_loop) tt
          | inr (raw, read) ↦ elim (Option-cases (w raw)) [
            | inl throws ↦ rw (fresh, open_key, read, throws, error_loop) tt
            | inr (v, walked) ↦
                rw (fresh, open_key, read, walked, error_loop)
                  (error_loop-FieldsClean es (or_same_out e.0 v out) (
                    or_same_out-HasClean e.0 v out open_key (subst (OutClean n) walked (clean raw))
                      h))
          ]
        ]
      ]
    ]

    or_null-IsClean : (o : Option Json) → OutClean n (some o) → IsClean n (or_null o)
    unfolding IsClean
    or_null-IsClean none c = tt
    or_null-IsClean (some j) c = c

    pub list_loop-ItemsClean :
        (left : ℕ) (vs : List Value) → ItemsClean n (left + 1) (list_loop to_lower extra w left vs)
    unfolding list_loop IsClean
    list_loop-ItemsClean left [] = (omega arith, tt)
    list_loop-ItemsClean zero (v ∷ vs) = (omega arith, (tt, tt))
    list_loop-ItemsClean (suc left) (v ∷ vs) = elim (Option-cases (w v)) [
      | inl throws ↦ rw (throws, list_loop) tt
      | inr (j, walked) ↦ elim (Option-cases (list_loop to_lower extra w left vs)) [
        | inl throws ↦ rw (walked, throws, list_loop) tt
        | inr (rest, listed) ↦
            let r = subst (ItemsClean n (left + 1)) listed (list_loop-ItemsClean left vs) in
            rw (walked, listed, list_loop)
              (omega (arith, r.0), (or_null-IsClean j (subst (OutClean n) walked (clean v)), r.1))
      ]
    ]

    module _ (counted : is_sensitive_key to_lower extra dropped_key ≡ false) where
      pub entry_loop-FieldsClean :
          (total kept : ℕ) (es : List (Str × Value)) (out : Fields)
          → HasClean n out
          → FieldsClean n (entry_loop to_lower extra w total kept out es)
      unfolding entry_loop
      entry_loop-FieldsClean total kept [] out h = h
      entry_loop-FieldsClean total kept (e ∷ es) out h = elim (Bool-cases (leb max_keys kept)) [
        | inl full ↦ rw full (
            assign-HasClean n dropped_key (number (decimal (total - kept))) out (inl counted)
              (number-IsClean n (decimal (total - kept))) h)
        | inr room ↦ elim (Bool-cases (is_sensitive_key to_lower extra e.0)) [
          | inl secret ↦
              rw (room, secret)
                (entry_loop-FieldsClean total (kept + 1) es (assign e.0 (string redacted) out)
                  (assign-HasClean n e.0 (string redacted) out (inr refl) (redacted-IsClean n) h))
          | inr open_key ↦ elim (Option-cases (w e.1)) [
            | inl throws ↦ rw (room, open_key, throws, entry_loop) tt
            | inr (v, walked) ↦ elim (Option-cases v) [
              | inl gone ↦
                  rw (room, open_key, walked, gone, entry_loop)
                    (entry_loop-FieldsClean total kept es out h)
              | inr (j, present) ↦
                  rw (room, open_key, walked, present, entry_loop)
                    (entry_loop-FieldsClean total (kept + 1) es (assign e.0 j out) (
                      assign-HasClean n e.0 j out (inl open_key)
                        (subst (OutClean n) (walked ∙ ap some present) (clean e.1)) h))
            ]
          ]
        ]
      ]

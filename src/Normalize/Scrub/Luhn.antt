-- ===== src/Normalize/Scrub/Luhn.antt =====
-- The checksum of core/src/normalize.ts.
use watchup_v3_packages.Prelude.{
  ℕ, ◌+◌, ◌-◌, ◌%◌, ◌≤◌, ◌≡◌, refl, ap, Bool, true, false, not, [], ◌∷◌, ◌++◌, arith, ==_iff,
}
use watchup_v3_packages.Utf8.{Str}
use watchup_v3_packages.Normalize.Scrub.Cards.{luhn_weight, luhn_loop, luhn_valid}

-- Two texts that differ in one digit: the loop doubles the same places, and the sums differ by
-- what the two digits add.
changed_digit :
    (a b : Str) (c d : ℕ)
    → let w = (luhn_loop b).double in
      ((luhn_loop (a ++ c ∷ b)).double ≡ (luhn_loop (a ++ d ∷ b)).double)
      × ((luhn_loop (a ++ c ∷ b)).sum + luhn_weight w (d - 48)
          ≡ (luhn_loop (a ++ d ∷ b)).sum + luhn_weight w (c - 48))
unfolding luhn_loop
changed_digit [] b c d = (refl, omega arith)
changed_digit (x ∷ a) b c d =
    let r = changed_digit a b c d in
    let same = ap (λ w. luhn_weight w (x - 48)) r.0 in (ap not r.0, omega (arith, r.1, same))

weight_injective : (w : Bool) (c d : ℕ) → c ≤ 9 → d ≤ 9 → luhn_weight w c ≡ luhn_weight w d → c ≡ d
weight_injective true c d hc hd h = ground arith
weight_injective false c d hc hd h = h

weight_digit : (w : Bool) (c : ℕ) → c ≤ 9 → luhn_weight w c ≤ 9
weight_digit true c h = ground arith
weight_digit false c h = h

same_residue : (x y v w : ℕ) → x % 10 ≡ 0 → y % 10 ≡ 0 → v ≤ 9 → w ≤ 9 → x + w ≡ y + v → v ≡ w
same_residue x y v w hx hy hv hw h = omega (arith, hx, hy, hv, hw, h)

-- Of two card numbers that differ in one digit at most one passes the checksum.
pub luhn_valid_one :
    (a b : Str) (c d : ℕ)
    → 48 ≤ c
    → c ≤ 57
    → 48 ≤ d
    → d ≤ 57
    → luhn_valid (a ++ c ∷ b) ≡ true
    → luhn_valid (a ++ d ∷ b) ≡ true
    → c ≡ d
unfolding luhn_valid
luhn_valid_one a b c d lc hc ld hd vc vd =
    let w = (luhn_loop b).double in
    let ic : c - 48 ≤ 9 = omega (arith, hc) in
    let id : d - 48 ≤ 9 = omega (arith, hd) in
    let same : luhn_weight w (c - 48) ≡ luhn_weight w (d - 48) =
      same_residue _ _ _ _ ((==_iff _ _).0 vc) ((==_iff _ _).0 vd) (weight_digit w (c - 48) ic)
        (weight_digit w (d - 48) id) (changed_digit a b c d).1 in
    omega (arith, lc, ld, weight_injective w (c - 48) (d - 48) ic id same)

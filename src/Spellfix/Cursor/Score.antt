-- ===== src/Spellfix/Cursor/Score.antt =====
-- spellfix1Score: how far the rank of a word lowers its distance.
use letarette.Base.{
  ℕ, zero, suc, ◌+◌, ◌*◌, ◌/◌, ◌^◌, ◌≤◌, ◌<◌, ◌≡◌, refl, sym, ap, inl, inr, arith, ltb, ◌==◌,
  ==_iff, Bool-cases, ℤ, pos_part,
}
use mathlib.Core.Path.{subst}
use native.Mathlib.Nat.{pow-suc}
use letarette.Spellfix.Cursor.{log2_loop, score}

-- `k` is the number of binary digits of the rank.
record IsDigits (rank k : ℕ) : Type 0 where
  below : rank < 2 ^ k
  above : 1 ≤ rank → 2 ^ k ≤ 2 * rank
  none : rank ≡ 0 → k ≡ 0

log2_loop-IsDigits :
    (fuel rank log2 : ℕ)
    → rank < 2 ^ fuel
    → (k : ℕ) × (log2_loop fuel rank log2 ≡ log2 + k) × (k ≤ fuel) × IsDigits rank k
unfolding log2_loop
log2_loop-IsDigits zero rank log2 h =
    (0, omega arith, omega arith, record { below = h; above = λ h'. omega arith; none = λ e. refl })
log2_loop-IsDigits (suc fuel) rank log2 h = elim (Bool-cases (ltb 0 rank)) [
  | inr zero_rank ↦ (
    0,
    rw (zero_rank, log2_loop) (omega arith),
    omega arith,
    record { below = ground arith; above = λ h'. ground arith; none = λ e. refl },
  )
  | inl more ↦
      let smaller : rank / 2 < 2 ^ fuel = omega (arith, pow-suc 2 fuel) in
      let (k, counted, le, d) = log2_loop-IsDigits fuel (rank / 2) (log2 + 1) smaller in
      (
        suc k,
        rw (more, log2_loop) (omega (arith, counted)),
        omega arith,
        record {
          below = omega (arith, pow-suc 2 k, d.below);
          above = λ _. elim (Bool-cases (ltb 0 (rank / 2))) [
            | inl large ↦ omega (arith, pow-suc 2 k, d.above (ground arith))
            | inr one ↦
                subst (λ j. 2 ^ suc j ≤ 2 * rank) (sym (d.none (ground arith))) (ground arith)
          ];
          none = λ e. ground arith;
        },
      )
]

-- A positive `int` has 31 digits at most.
fits_int : (rank k : ℕ) → rank < 2 ^ 31 → k ≤ 32 → IsDigits rank k → k ≤ 31
fits_int rank k h le d = elim (Bool-cases (k == 32)) [
  | inr less ↦ ground arith
  | inl most ↦
      let top : 2 ^ k ≡ 2 ^ 32 = ap (λ j. 2 ^ j) ((==_iff k 32).0 most) in
      let some_digit : 1 ≤ rank = ground (arith, d.none) in
      absurd (omega (arith, d.above some_digit, top))
]

-- For a rank that an `int` holds: the score is at least the distance plus 1 and at most the distance
-- plus 32, and it is the distance plus 32 for a rank of 0 or less. Otherwise what it lies below that
-- is the number of binary digits of the rank.
pub score_bounds :
    (distance : ℕ) (rank : ℤ)
    → pos_part rank < 2 ^ 31
    → (digits : ℕ) × (score distance rank + digits ≡ distance + 32)
      × (distance + 1 ≤ score distance rank)
      × (score distance rank ≤ distance + 32)
      × (pos_part rank < 2 ^ digits)
      × (1 ≤ pos_part rank → 2 ^ digits ≤ 2 * pos_part rank)
      × (pos_part rank ≡ 0 → digits ≡ 0)
unfolding score
score_bounds distance rank h =
    let (k, counted, le, d) = log2_loop-IsDigits 32 (pos_part rank) 0 (omega arith) in
    let less : k ≤ 31 = fits_int (pos_part rank) k h le d in
    (
      k,
      omega (arith, counted),
      omega (arith, counted),
      omega (arith, counted),
      d.below,
      d.above,
      d.none,
    )

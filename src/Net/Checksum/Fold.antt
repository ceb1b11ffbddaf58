-- ===== src/Net/Checksum/Fold.antt =====
-- Folding is reduction modulo 65535, with 65535 for the multiples but zero itself.
use ralph_os.Base.{
  ℕ, zero, suc, ◌+◌, ◌-◌, ◌/◌, ◌%◌, ◌^◌, ◌<◌, ◌≡◌, refl, arith, ◌==◌, if◌then◌else◌,
}
use ralph_os.Net.Checksum.{fold_loop, fold}

abbrev pub residue : ℕ → ℕ
residue s = if s == 0 then 0 else (s - 1) % 65535 + 1

fold_loop-small : (fuel s : ℕ) → s < 2 ^ 16 → fold_loop fuel s ≡ s
unfolding fold_loop
fold_loop-small zero s h = refl
fold_loop-small (suc fuel) s h = ground arith

-- For a 32-bit sum the folding loop ends within two rounds: more rounds change nothing.
fold_loop_fuel : (fuel s : ℕ) → s < 2 ^ 32 → fold_loop (suc (suc fuel)) s ≡ fold s
unfolding fold_loop fold
fold_loop_fuel zero s h = refl
fold_loop_fuel (suc fuel) s h = ground (
  arith,
  fold_loop-small (suc fuel)
      ((s % 2 ^ 16 + s / 2 ^ 16) % 2 ^ 16 + (s % 2 ^ 16 + s / 2 ^ 16) / 2 ^ 16) (omega arith),
)

-- For a 32-bit sum, folding gives its residue modulo 65535, with zero for the sum zero only and
-- 65535 for its other multiples.
pub fold-residue : (s : ℕ) → s < 2 ^ 32 → fold s ≡ residue s
unfolding fold fold_loop
fold-residue s h = ground arith

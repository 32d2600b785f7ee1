-- ===== src/State/Fees/Split.antt =====
-- The fee split of src/state/fees.rs: nothing is minted or lost, and the platform's share is the
-- exact fraction rounded down.
use txtcel_program.Base.{ℕ, ◌+◌, ◌*◌, ◌/◌, ◌≤◌, ◌<◌, ◌≡◌, arith, u64_mod}
use txtcel_program.State.Fees.{bps_part, compute_fee_split}

-- Below the caps of the types the arithmetic is exact.
pub bps_part-exact :
    (amount bps : ℕ) → amount < u64_mod → bps ≤ 10000 → bps_part amount bps ≡ amount * bps / 10000
bps_part-exact amount bps ha hb =
    let small : amount * bps ≤ amount * 10000 = grind arith in omega arith

pub bps_part-le : (amount bps : ℕ) → amount < u64_mod → bps ≤ 10000 → bps_part amount bps ≤ amount
bps_part-le amount bps ha hb =
    let small : amount * bps ≤ amount * 10000 = grind arith in
    omega (arith, bps_part-exact amount bps ha hb)

-- For a `u64` amount and a cut of at most 100% the two shares sum to the amount, and the platform's
-- share is the amount's fraction of `cut_bps` ten-thousandths, rounded down.
pub compute_fee_split-sum :
    (amount cut_bps : ℕ)
    → amount < u64_mod
    → cut_bps ≤ 10000
    → let (author, platform) = compute_fee_split amount cut_bps in
      (author + platform ≡ amount) × (platform ≡ amount * cut_bps / 10000)
unfolding compute_fee_split
compute_fee_split-sum amount cut_bps ha hb =
    (omega (arith, bps_part-le amount cut_bps ha hb), bps_part-exact amount cut_bps ha hb)

-- Under the cap of 50% that the setters enforce, the author's share is at least the platform's.
pub compute_fee_split-author_half :
    (amount cut_bps : ℕ)
    → amount < u64_mod
    → cut_bps ≤ 5000
    → let (author, platform) = compute_fee_split amount cut_bps in platform ≤ author
unfolding compute_fee_split
compute_fee_split-author_half amount cut_bps ha hb =
    let small : amount * cut_bps ≤ amount * 5000 = grind arith in
    omega (arith, bps_part-exact amount cut_bps ha (omega arith))

-- ===== src/State/Fees/Divided.antt =====
-- What dividing a fee pays to whom (`transfer_fee_split` in src/state/fees.rs).
use txtcel_program.Base.{
  ℕ, ◌+◌, ◌-◌, ◌*◌, ◌/◌, ◌≤◌, ◌<◌, ◌≡◌, ◌≢◌, refl, sym, ◌∙◌, ltb, u64_mod, arith,
}
use mathlib.Core.Path.{subst}
use txtcel_program.Error.{ok}
use txtcel_program.Runtime.{Pubkey, Bank, AccountInfo, Runtime}
use txtcel_program.Runtime.Laws.{IsRuntime}
use txtcel_program.Runtime.Tx.{when}
use txtcel_program.Runtime.Hoare.{Holds, held, Holds-bind, Holds-if, Holds-mono, Holds-pure}
use txtcel_program.State.Fees.{compute_fee_split, collect_fee_to_shard, transfer_fee_split}
use txtcel_program.State.Fees.Split.{compute_fee_split-sum}
use txtcel_program.State.Fees.Payment.{
  SameData, SameData-refl, SameData-trans, due, Collected, collect_fee_to_shard-Collected,
}

-- The author's shard and the treasury's receive their shares of the amount, each at least what its rent
-- exemption lacks, and the payer pays both.
pub record Divided (payer author_fee_shard treasury_shard : Pubkey) (amount platform rent_min : ℕ)
    (b b' : Bank) : Type 0 where
  pub treasury :
      (b' treasury_shard).lamports
      ≡ (b treasury_shard).lamports + due platform rent_min (b treasury_shard).lamports
  pub author :
      (b' author_fee_shard).lamports
      ≡ (b author_fee_shard).lamports
        + due (amount - platform) rent_min (b author_fee_shard).lamports
  pub paid :
      (b' payer).lamports
        + due platform rent_min (b treasury_shard).lamports
        + due (amount - platform) rent_min (b author_fee_shard).lamports
      ≡ (b payer).lamports
  pub exact :
      rent_min ≤ (b treasury_shard).lamports
      → rent_min ≤ (b author_fee_shard).lamports
      → (b' payer).lamports + amount ≡ (b payer).lamports
  pub others :
      (k : Pubkey)
      → k ≢ payer
      → k ≢ author_fee_shard
      → k ≢ treasury_shard
      → (b' k).lamports ≡ (b k).lamports
  pub kept : SameData b b'

-- A share above the rent exemption is paid as it is.
due-exempt : (n rent_min balance : ℕ) → rent_min ≤ balance → due n rent_min balance ≡ n
due-exempt n rent_min balance h = ground arith

module _ {R : Runtime} (L : IsRuntime R) {rent : ℕ → ℕ} (rent_ok : R.rent ≡ ok rent) where
  share-Collected :
      (n : ℕ) (payer shard : AccountInfo) (b : Bank)
      → Holds
          (λ _ b'. Collected payer.key shard.key (due n (rent 0) (b shard.key).lamports) b b')
          (when (ltb 0 n) (collect_fee_to_shard R n payer shard) b)
  share-Collected n payer shard b =
      Holds-if (ltb 0 n) _ _ b (λ _. collect_fee_to_shard-Collected L n payer shard b rent_ok)
        (λ none.
          let nothing : due n (rent 0) (b shard.key).lamports ≡ 0 = ground arith in
          Holds-pure tt b (record {
            received = λ ne. omega (arith, nothing);
            paid = λ ne. omega (arith, nothing);
            others = λ k ne ne'. refl;
            kept = SameData-refl b;
          }))

  -- Rent is known, the payer and the two shards are three accounts, the amount is a 64-bit number and
  -- the cut is at most 100%. A division that succeeds pays the treasury's shard the cut of the amount,
  -- rounded down, and the author's shard the rest, each raised to what its rent exemption lacks and
  -- nothing for a share of zero; the payer pays exactly that, which is the amount where both shards are
  -- rent exempt; no other balance and no data or owner changes.
  pub transfer_fee_split-Divided :
      (amount cut_bps : ℕ) (payer author_fee_shard treasury_shard : AccountInfo) (b : Bank)
      → amount < u64_mod
      → cut_bps ≤ 10000
      → payer.key ≢ author_fee_shard.key
      → payer.key ≢ treasury_shard.key
      → author_fee_shard.key ≢ treasury_shard.key
      → Holds
          (λ _ b'.
            Divided payer.key author_fee_shard.key treasury_shard.key amount
              (amount * cut_bps / 10000)
              (rent 0)
              b
              b')
          (transfer_fee_split R amount cut_bps payer author_fee_shard treasury_shard b)
  unfolding transfer_fee_split
  transfer_fee_split-Divided amount cut_bps payer author_fee_shard treasury_shard b fits capped pa
        pt at =
      let (author, platform) = compute_fee_split amount cut_bps in
      let (sum, exactly) = compute_fee_split-sum amount cut_bps fits capped in
      let a = author_fee_shard.key in
      let t = treasury_shard.key in
      let rest : author ≡ amount - platform = omega (arith, sum) in
      Holds-bind _ _ b (share-Collected platform payer treasury_shard b) λ _ b1 c.
        Holds-mono (share-Collected author payer author_fee_shard b1) λ _ b' d.
          let untouched : (b1 a).lamports ≡ (b a).lamports = c.others a (λ q. pa (sym q)) at in
          let to_author = d.received pa in
          let to_treasury = c.received pt in
          let kept_treasury = d.others t (λ q. pt (sym q)) (λ q. at (sym q)) in
          let pays_author = d.paid pa in
          let pays_treasury = c.paid pt in
          let dues : due author (rent 0) (b1 a).lamports
              ≡ due (amount - platform) (rent 0) (b a).lamports =
            rw (untouched, rest) in
          held (
            subst
              (λ p.
                Divided payer.key author_fee_shard.key treasury_shard.key amount p (rent 0) b b')
              exactly
              (record {
                treasury = kept_treasury ∙ to_treasury;
                author = omega (arith, to_author, untouched, dues);
                paid = omega (arith, pays_author, pays_treasury, dues);
                exact = λ ht ha. omega (
                  arith,
                  pays_author,
                  pays_treasury,
                  dues,
                  due-exempt platform (rent 0) (b t).lamports ht,
                  due-exempt (amount - platform) (rent 0) (b a).lamports ha,
                  sum,
                );
                others = λ k np na nt. d.others k np na ∙ c.others k np nt;
                kept = SameData-trans b b1 b' c.kept d.kept;
              }))

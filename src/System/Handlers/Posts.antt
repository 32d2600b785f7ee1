-- ===== src/System/Handlers/Posts.antt =====
-- Posted messages stand in a slot and are short (src/processor/fill_slot.rs).
use txtcel_program.Base.{ℕ, ◌≤◌, ◌<◌, ◌≡◌, refl, List, [], ◌∷◌, All, length, take, arith}
use txtcel_program.Base.Int.{ℤ}
use txtcel_program.Error.{ok}
use txtcel_program.Borsh.Laws.{Fits, FitsI64}
use txtcel_program.Runtime.{Pubkey, Bank, AccountInfo, Runtime}
use txtcel_program.Runtime.Laws.{IsRuntime}
use txtcel_program.Runtime.Tx.{check}
use txtcel_program.Runtime.Hoare.{
  Holds, held, failed, Holds-bind, Holds-check, Holds-fail_if, Holds-gets, Holds-if, Holds-lift,
  Holds-mono, Holds-take,
}
use txtcel_program.State.Constants.{content_slots, max_body_len}
use txtcel_program.State.Accounts.{CandidateSlot}
use txtcel_program.State.Asserts.{is_uninitialized}
use txtcel_program.Content.Node.{content_node_codec}
use txtcel_program.Content.Node.Laws.{ContentNodeInRange}
use txtcel_program.Processor.FillSlot.{Post, Posting, fill_candidate, fill_first, process_fill_slot}
use txtcel_program.Processor.FillSlot.Filled.{message, charge_fees-capped}
use txtcel_program.Processor.FillSlot.Posted.{PostInRange, posting_of, message_in_range}
use txtcel_program.System.Sound.{SoundBank, Nowhere}
use txtcel_program.System.Writes.{content_node_codec-Sound}
use txtcel_program.System.Keeps.{
  create_pda_account-keeps, ensure_fee_shards_initialized-keeps, serialize-keeps,
}
use txtcel_program.System.Frames.{SameData-SoundBut}

module _ {R : Runtime} (L : IsRuntime R) (program_id : Pubkey) (p : Posting) (post : Post)
    (rent_ok : R.rent ≡ ok p.rent) (short : length post.body ≤ max_body_len)
    (in_range : (c : CandidateSlot)
      → c.alloc_seq ≤ p.thread.last_alloc_seq
      → c.slot < content_slots
      → ContentNodeInRange (message R program_id p post c)) where
  fill_candidate-keeps :
      (c : CandidateSlot) (account : AccountInfo) (bump : ℕ) (b : Bank)
      → c.alloc_seq ≤ p.thread.last_alloc_seq
      → c.slot < content_slots
      → SoundBank R program_id b
      → Holds
          (λ _ b'. SoundBank R program_id b')
          (fill_candidate R program_id p post c account bump b)
  unfolding fill_candidate
  fill_candidate-keeps c account bump b hseq hslot h =
      let m = message R program_id p post c in
      Holds-check _ _ b λ _ _.
        Holds-bind _ _ b
          (create_pda_account-keeps L program_id Nowhere rent_ok p.payer account
            p.system_program_account _ _ b h)
          λ _ b1 h1.
            Holds-bind _ _ b1
              (serialize-keeps R program_id (content_node_codec R.borsh) m account
                (λ rest.
                  content_node_codec-Sound L.is_borsh m rest (in_range c hseq hslot) refl
                    (record { slot = hslot; body = short }))
                b1 h1)
              λ _ b2 h2.
                Holds-mono (charge_fees-capped L program_id p post rent_ok in_range b2)
                  λ _ b3 (_, s). held (SameData-SoundBut R program_id Nowhere b2 b3 s h2)

  fill_first-keeps :
      (candidates : List CandidateSlot) (accounts : List AccountInfo) (b : Bank)
      → SoundBank R program_id b
      → Holds
          (λ _ b'. SoundBank R program_id b')
          (fill_first R program_id p post candidates accounts b)
  unfolding fill_first check
  fill_first-keeps [] accounts b h = failed
  fill_first-keeps (c ∷ cs) [] b h = failed
  fill_first-keeps (c ∷ cs) (account ∷ accounts) b h = Holds-fail_if _ _ _ b λ hseq.
      Holds-fail_if _ _ _ b λ hslot. Holds-check _ _ b λ _ _. Holds-gets _ _ b (
        Holds-if (is_uninitialized R account b) _ _ b
          (λ free. fill_candidate-keeps c account _ b (ground arith) (ground arith) h)
          (λ taken. fill_first-keeps cs accounts b h))

module _ {R : Runtime} (L : IsRuntime R) (program_id : Pubkey) (accounts : List AccountInfo)
    (keyed : All (λ a. Fits 32 a.key) accounts) (b : Bank) (h : SoundBank R program_id b)
    {rent : ℕ → ℕ} {now : ℤ} (rent_ok : R.rent ≡ ok rent) (time_ok : R.unix_timestamp ≡ ok now)
    (fits_now : FitsI64 now) where
  pub process_fill_slot-keeps :
      (post : Post) (candidates : List CandidateSlot) (treasury_shard_idx author_fee_shard_idx : ℕ)
      → PostInRange post
      → Holds
          (λ _ b'. SoundBank R program_id b')
          (process_fill_slot R program_id accounts post candidates treasury_shard_idx
            author_fee_shard_idx b)
  unfolding process_fill_slot
  process_fill_slot-keeps post candidates treasury_shard_idx author_fee_shard_idx range =
      Holds-fail_if _ _ _ b λ short. Holds-check _ _ b λ _ _. Holds-fail_if _ _ _ b λ _.
        Holds-take accounts _ b keyed λ payer r1 fits_payer k1.
          Holds-take r1 _ b k1 λ thread_account r2 fits_thread k2.
            Holds-take r2 _ b k2 λ settings_account r3 _ k3.
              Holds-take r3 _ b k3 λ treasury_shard r4 _ k4.
                Holds-take r4 _ b k4 λ author_fee_shard r5 _ k5.
                  Holds-take r5 _ b k5 λ system_program_account remaining _ _.
                    Holds-check _ _ b λ _ _. Holds-check _ _ b λ _ _.
                      Holds-check _ _ b λ thread loaded. Holds-check _ _ b λ settings _.
                        Holds-check _ _ b λ bumps _. Holds-fail_if _ _ _ b λ _.
                          Holds-check _ _ b λ _ _. Holds-check _ _ b λ _ _. Holds-check _ _ b λ _ _.
                            Holds-check _ _ b λ _ _. Holds-check _ _ b λ fee_exempt _.
                              let size : length post.body ≤ max_body_len = ground arith in
                              Holds-bind _ _ b
                                (ensure_fee_shards_initialized-keeps L program_id Nowhere rent_ok
                                  payer treasury_shard author_fee_shard system_program_account
                                  thread_account.key treasury_shard_idx author_fee_shard_idx bumps.0
                                  bumps.1 b h)
                                λ _ b1 h1. Holds-lift _ _ b1 rent_ok (
                                  Holds-lift _ _ b1 time_ok (
                                    fill_first-keeps L program_id
                                      (posting_of payer thread_account treasury_shard
                                        author_fee_shard system_program_account rent now thread
                                        settings fee_exempt)
                                      post rent_ok size
                                      (message_in_range L program_id payer thread_account
                                        settings_account treasury_shard author_fee_shard
                                        system_program_account remaining post candidates rent_ok
                                        time_ok fits_now fits_payer fits_thread range thread
                                        settings fee_exempt b loaded size)
                                      candidates (take (length candidates) remaining) b1 h1))

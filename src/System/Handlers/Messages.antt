-- ===== src/System/Handlers/Messages.antt =====
-- Growing and deleting a message (src/processor/append_content.rs, close_account.rs).
use txtcel_program.Base.{
  ℕ, ◌+◌, ◌-◌, ◌≤◌, ◌≡◌, ◌≢◌, ltb, List, [], ◌∷◌, ◌++◌, All, length, length-append, to_le_bytes,
  arith,
}
use txtcel_program.Base.Int.{ℤ}
use txtcel_program.Error.{ok}
use txtcel_program.Borsh.{Bytes}
use txtcel_program.Borsh.Laws.{Fits}
use txtcel_program.Runtime.{Pubkey, Bank, AccountInfo, Seeds, Runtime}
use txtcel_program.Runtime.Laws.{IsRuntime}
use txtcel_program.Runtime.Tx.{when, ◌>>◌}
use txtcel_program.Runtime.Hoare.{
  Holds, Holds-bind, Holds-check, Holds-fail_if, Holds-gets, Holds-if, Holds-lift, Holds-pure,
  Holds-run, Holds-take,
}
use txtcel_program.Runtime.Storage.{try_from_slice-some}
use txtcel_program.State.Constants.{max_body_len, treasury_shard_seed}
use txtcel_program.State.AccountUtils.Effects.{top_up-ToppedUp}
use txtcel_program.State.Fees.{ensure_shard_initialized, collect_base_fee}
use txtcel_program.Content.{load_content}
use txtcel_program.Content.Facts.{load_content_iff}
use txtcel_program.Content.Node.{ContentNode, content_node_codec, content_node_size}
use txtcel_program.Content.Node.Laws.{ContentNodeInRange, content_node_codec-Canonical}
use txtcel_program.Processor.AppendContent.{process_append_content}
use txtcel_program.Processor.AppendContent.Appended.{longer, All-append}
use txtcel_program.Processor.CloseAccount.{process_close_account}
use txtcel_program.System.Sound.{IsPlaced, SoundBut, SoundBank}
use txtcel_program.System.Writes.{content_node_codec-Sound}
use txtcel_program.System.Keeps.{
  ensure_shard_initialized-keeps, collect_base_fee-keeps, close_program_account-keeps, resize-skips,
  serialize-closes,
}
use txtcel_program.System.Frames.{SameData-SoundBut}
use txtcel_program.System.Handlers.Likes.{reset_likes-keeps}

-- The fee for what a message grew by.
charge-keeps :
    {R : Runtime} (L : IsRuntime R) (program_id : Pubkey) {rent : ℕ → ℕ}
    (rent_ok : R.rent ≡ ok rent) (skip : Pubkey → Type 0)
    (payer shard system_program_account : AccountInfo) (seeds : Seeds) (bump delta bps : ℕ)
    (b : Bank)
    → SoundBut R program_id skip b
    → Holds
        (λ _ b'. SoundBut R program_id skip b')
        (when
          (ltb 0 delta)
          (ensure_shard_initialized R program_id payer shard system_program_account seeds bump
            >> collect_base_fee R delta bps payer shard)
          b)
charge-keeps L program_id rent_ok skip payer shard system_program_account seeds bump delta bps b h =
    Holds-if (ltb 0 delta) _ _ b
      (λ _.
        Holds-bind _ _ b
          (ensure_shard_initialized-keeps L program_id skip rent_ok payer shard
            system_program_account seeds bump b h)
          λ _ b1 h1. collect_base_fee-keeps L program_id skip rent_ok delta bps payer shard b1 h1)
      (λ _. Holds-pure tt b h)

module _ {R : Runtime} (L : IsRuntime R) (program_id : Pubkey) where
  -- A message that grows within the limit may be written.
  longer-Sound :
      (account : AccountInfo) (old : ContentNode) (chunk : Bytes) (b : Bank)
      → SoundBank R program_id b
      → load_content R program_id account b ≡ ok old
      → All (Fits 1) chunk
      → length old.body + length chunk ≤ max_body_len
      → ContentNodeInRange (longer old chunk) × IsPlaced (longer old chunk)
  longer-Sound account old chunk b h loaded bytes_of short =
      let (owned, decoded, tagged, _) = (load_content_iff R program_id account b old).0 loaded in
      let (_, known) =
        try_from_slice-some (content_node_codec R.borsh) (content_node_codec-Canonical L.is_borsh) _
          old decoded in
      let placed = (h account.key (λ x. x) owned).content old decoded tagged in
      (
        record {
          header = known.header;
          kind = known.kind;
          body_length = omega (arith, length-append old.body chunk);
          body = All-append 1 old.body chunk known.body bytes_of;
        },
        record { slot = placed.slot; body = omega (arith, length-append old.body chunk) },
      )

  module _ (accounts : List AccountInfo) (keyed : All (λ a. Fits 32 a.key) accounts) (b : Bank)
      (h : SoundBank R program_id b) where
    pub process_close_account-keeps :
        program_id ≢ R.system_id
        → Holds (λ _ b'. SoundBank R program_id b') (process_close_account R program_id accounts b)
    unfolding process_close_account
    process_close_account-keeps ours = Holds-take accounts _ b keyed λ payer r1 _ k1.
        Holds-take r1 _ b k1 λ target_account likes_accounts _ _. Holds-check _ _ b λ _ _.
          Holds-check _ _ b λ _ _. Holds-check _ _ b λ _ _. Holds-check _ _ b λ tag _.
            Holds-fail_if _ _ _ b λ _. Holds-check _ _ b λ content _. Holds-fail_if _ _ _ b λ _.
              Holds-bind _ _ b (reset_likes-keeps L program_id likes_accounts content b h)
                λ _ b1 h1. close_program_account-keeps L program_id target_account payer b1 ours h1

    module _ {rent : ℕ → ℕ} (rent_ok : R.rent ≡ ok rent) where
      pub process_append_content-keeps :
          {now : ℤ} (chunk : Bytes) (treasury_shard_idx author_fee_shard_idx : ℕ)
          → R.unix_timestamp ≡ ok now
          → All (Fits 1) chunk
          → Holds
              (λ _ b'. SoundBank R program_id b')
              (process_append_content R program_id accounts chunk treasury_shard_idx
                author_fee_shard_idx b)
      unfolding process_append_content
      process_append_content-keeps chunk treasury_shard_idx author_fee_shard_idx time_ok bytes_of =
          Holds-take accounts _ b keyed λ payer r1 _ k1.
            Holds-take r1 _ b k1 λ content_account r2 _ k2.
              Holds-take r2 _ b k2 λ thread_account r3 _ k3.
                Holds-take r3 _ b k3 λ settings_account r4 _ k4.
                  Holds-take r4 _ b k4 λ treasury_shard r5 _ k5.
                    Holds-take r5 _ b k5 λ author_fee_shard r6 _ k6.
                      Holds-take r6 _ b k6 λ system_program_account r7 _ _. Holds-check _ _ b λ _ _.
                        Holds-check _ _ b λ _ _. Holds-check _ _ b λ _ _. Holds-check _ _ b λ _ _.
                          Holds-check _ _ b λ thread _. Holds-check _ _ b λ settings _.
                            Holds-check _ _ b λ bumps _. Holds-check _ _ b λ old loaded.
                              Holds-fail_if _ _ _ b λ _. Holds-fail_if _ _ _ b λ _.
                                Holds-lift _ _ b time_ok (
                                  Holds-check _ _ b λ age _. Holds-fail_if _ _ _ b λ _.
                                    Holds-fail_if _ _ _ b λ short.
                                      let k = content_account.key in
                                      let size = content_node_size (length (old.body ++ chunk)) in
                                      let (range, placed) =
                                        longer-Sound content_account old chunk b h loaded bytes_of
                                          (ground arith) in
                                      let (_, _, tagged, _) =
                                        (load_content_iff R program_id content_account b old).0
                                          loaded in
                                      Holds-bind _ _ b (Holds-run (R.resize content_account size) b)
                                        λ _ b1 e1. Holds-lift _ _ b1 rent_ok (
                                          Holds-gets _ _ b1 (
                                            Holds-bind _ _ b1
                                              (top_up-ToppedUp L payer content_account (rent size)
                                                b1)
                                              λ _ b2 up.
                                                Holds-bind _ _ b2
                                                  (charge-keeps L program_id rent_ok (λ j. j ≡ k)
                                                    payer treasury_shard system_program_account
                                                    (treasury_shard_seed
                                                      ∷ to_le_bytes 2 treasury_shard_idx
                                                      ∷ [])
                                                    bumps.0
                                                    (rent size
                                                      - rent (content_node_size (length old.body)))
                                                    settings.base_fee_bps b2
                                                    (SameData-SoundBut R program_id (λ j. j ≡ k) b1
                                                      b2
                                                      (record {
                                                        bytes = up.bytes;
                                                        owner = up.owner;
                                                      })
                                                      (resize-skips L program_id content_account
                                                        size b b1 e1 h)))
                                                  λ _ b3 h3.
                                                    serialize-closes R program_id
                                                      (content_node_codec R.borsh)
                                                      (longer old chunk) content_account
                                                      (λ rest.
                                                        content_node_codec-Sound L.is_borsh
                                                          (longer old chunk) rest range tagged
                                                          placed)
                                                      b3 h3)))

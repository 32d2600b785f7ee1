-- ===== src/System/Handlers/Likes.antt =====
-- The like counters (src/processor/like_content.rs, and the reset of close_account.rs).
use txtcel_program.Base.{ℕ, ◌≡◌, refl, ltb, not, ◌==◌, ◌&&◌, List, [], ◌∷◌, All, replicate}
use txtcel_program.Error.{ok}
use txtcel_program.Borsh.Laws.{Fits}
use txtcel_program.Runtime.{Pubkey, Bank, AccountInfo, Runtime}
use txtcel_program.Runtime.Laws.{IsRuntime}
use txtcel_program.Runtime.Tx.{serialize, done}
use txtcel_program.Runtime.Hoare.{
  Holds, Holds-bind, Holds-check, Holds-fail_if, Holds-gets, Holds-if, Holds-pure, Holds-take,
}
use txtcel_program.State.Constants.{content_slots, tag_likes}
use txtcel_program.State.Accounts.{AllocLikes}
use txtcel_program.State.Codecs.{alloc_likes_codec}
use txtcel_program.State.Asserts.{is_uninitialized}
use txtcel_program.State.Loaders.Facts.{load_alloc_likes_iff}
use txtcel_program.Content.Node.{ContentNode}
use txtcel_program.Processor.CloseAccount.{write_reset, reset_likes}
use txtcel_program.Processor.LikeContent.{create_likes, record_like, process_like_content}
use txtcel_program.System.Sound.{SoundBank, Nowhere}
use txtcel_program.System.Writes.{alloc_likes_codec-Sound}
use txtcel_program.System.Keeps.{
  create_pda_account-keeps, prepare_fee_shards-keeps, transfer_fee_split-keeps, serialize-keeps,
}

module _ {R : Runtime} (L : IsRuntime R) (program_id : Pubkey) where
  write_likes :
      (x : AllocLikes) (account : AccountInfo) (b : Bank)
      → x.tag ≡ tag_likes
      → SoundBank R program_id b
      → Holds
          (λ _ b'. SoundBank R program_id b')
          (serialize (alloc_likes_codec R.borsh) x account b)
  write_likes x account b tagged h =
      serialize-keeps R program_id (alloc_likes_codec R.borsh) x account
        (λ rest. alloc_likes_codec-Sound L.is_borsh x rest tagged) b h

  write_reset-keeps :
      (account : AccountInfo) (content : ContentNode) (b : Bank)
      → SoundBank R program_id b
      → Holds (λ _ b'. SoundBank R program_id b') (write_reset R program_id account content b)
  unfolding write_reset
  write_reset-keeps account content b h = Holds-check _ _ b λ _ _. Holds-check _ _ b λ _ _.
      Holds-check _ _ b λ likes e. Holds-fail_if _ _ _ b λ _. Holds-check _ _ b λ counts _.
        write_likes (record likes { counts = counts }) account b
          ((load_alloc_likes_iff R program_id account b likes).0 e).1 h

  pub reset_likes-keeps :
      (accounts : List AccountInfo) (content : ContentNode) (b : Bank)
      → SoundBank R program_id b
      → Holds (λ _ b'. SoundBank R program_id b') (reset_likes R program_id accounts content b)
  unfolding reset_likes
  reset_likes-keeps [] content b h = Holds-pure tt b h
  reset_likes-keeps (account ∷ rest) content b h = Holds-check _ _ b λ _ _. Holds-gets _ _ b (
      Holds-if (not (is_uninitialized R account b)) (write_reset R program_id account content) done
        b (λ _. write_reset-keeps account content b h) (λ _. Holds-pure tt b h))

  record_like-keeps :
      (account : AccountInfo) (slot : ℕ) (b : Bank)
      → SoundBank R program_id b
      → Holds (λ _ b'. SoundBank R program_id b') (record_like R program_id account slot b)
  unfolding record_like
  record_like-keeps account slot b h = Holds-check _ _ b λ _ _. Holds-check _ _ b λ likes e.
      Holds-check _ _ b λ counts _.
        write_likes (record likes { counts = counts }) account b
          ((load_alloc_likes_iff R program_id account b likes).0 e).1 h

  module _ (accounts : List AccountInfo) (keyed : All (λ a. Fits 32 a.key) accounts) (b : Bank)
      (h : SoundBank R program_id b) where
    module _ {rent : ℕ → ℕ} (rent_ok : R.rent ≡ ok rent) where
      pub process_like_content-keeps :
          (alloc_seq slot treasury_shard_idx author_fee_shard_idx max_fee : ℕ)
          → Holds
              (λ _ b'. SoundBank R program_id b')
              (process_like_content R program_id accounts alloc_seq slot treasury_shard_idx
                author_fee_shard_idx max_fee b)
      unfolding process_like_content create_likes
      process_like_content-keeps alloc_seq slot treasury_shard_idx author_fee_shard_idx max_fee =
          Holds-fail_if _ _ _ b λ _. Holds-take accounts _ b keyed λ payer r1 _ k1.
            Holds-take r1 _ b k1 λ likes_account r2 _ k2.
              Holds-take r2 _ b k2 λ content_account r3 _ k3.
                Holds-take r3 _ b k3 λ thread_account r4 _ k4.
                  Holds-take r4 _ b k4 λ settings_account r5 _ k5.
                    Holds-take r5 _ b k5 λ treasury_shard r6 _ k6.
                      Holds-take r6 _ b k6 λ author_fee_shard r7 _ k7.
                        Holds-take r7 _ b k7 λ system_program_account r8 _ _.
                          Holds-check _ _ b λ _ _. Holds-check _ _ b λ _ _. Holds-check _ _ b λ _ _.
                            Holds-check _ _ b λ content _. Holds-check _ _ b λ _ _.
                              Holds-check _ _ b λ thread _. Holds-check _ _ b λ settings _.
                                Holds-bind _ _ b
                                  (prepare_fee_shards-keeps L program_id Nowhere rent_ok payer
                                    treasury_shard author_fee_shard system_program_account
                                    thread_account.key treasury_shard_idx author_fee_shard_idx b h)
                                  λ _ b1 h1. Holds-check _ _ b1 λ _ _. Holds-gets _ _ b1 (
                                    Holds-bind _ _ b1
                                      (Holds-if (is_uninitialized R likes_account b1) _ _ b1
                                        (λ _.
                                          Holds-bind _ _ b1
                                            (create_pda_account-keeps L program_id Nowhere rent_ok
                                              payer likes_account system_program_account _ _ b1 h1)
                                            λ _ b2 h2.
                                              write_likes
                                                (record {
                                                  tag = tag_likes;
                                                  alloc_seq = alloc_seq;
                                                  counts = replicate content_slots 0;
                                                })
                                                likes_account b2 refl h2)
                                        (λ _. Holds-pure tt b1 h1))
                                      λ _ b2 h2.
                                        Holds-bind _ _ b2
                                          (record_like-keeps likes_account slot b2 h2)
                                          λ _ b3 h3.
                                            Holds-if
                                              (ltb 0 thread.like_fee
                                                && not (payer.key == content.header.author))
                                              _ _ b3
                                              (λ _. Holds-fail_if _ _ _ b3 λ _.
                                                transfer_fee_split-keeps L program_id Nowhere
                                                  rent_ok thread.like_fee settings.like_cut_bps
                                                  payer author_fee_shard treasury_shard b3 h3)
                                              (λ _. Holds-pure tt b3 h3))

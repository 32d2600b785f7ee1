-- ===== src/Processor/FillSlot/Filled.antt =====
-- What filling a slot writes, and which slot is filled (the loop of src/processor/fill_slot.rs).
use txtcel_program.Base.{
  ℕ, ◌+◌, ◌*◌, ◌/◌, ◌%◌, ◌≤◌, ◌<◌, ◌≡◌, refl, ap, ◌∙◌, true, false, ltb, List, [], ◌∷◌, length,
  u64_mod, arith,
}
use txtcel_program.Error.{ok}
use txtcel_program.Borsh.{try_from_slice}
use txtcel_program.Runtime.{Pubkey, Bank, AccountInfo, Runtime}
use txtcel_program.Runtime.Laws.{IsRuntime}
use txtcel_program.Runtime.Hoare.{
  Holds, held, failed, Holds-bind, Holds-check, Holds-gets, Holds-fail_if, Holds-if, Holds-mono,
}
use txtcel_program.Runtime.Tx.{check}
use txtcel_program.Runtime.Storage.{write_new-Rewritten}
use txtcel_program.State.Constants.{tag_content, content_slots}
use txtcel_program.State.Accounts.{CandidateSlot}
use txtcel_program.State.Pda.{derive_content_pda}
use txtcel_program.State.Asserts.{is_uninitialized, assert_pda}
use txtcel_program.State.AccountUtils.Effects.{Frame, Frame-others, create_pda_account-Created}
use txtcel_program.State.Fees.Payment.{
  SameData, SameData-trans, SameData-Frame, when-SameData, collect_base_fee-SameData,
  transfer_fee_split-SameData,
}
use txtcel_program.State.Fees.{transfer_fee_split}
use txtcel_program.Content.{load_content}
use txtcel_program.Content.Facts.{load_content_iff}
use txtcel_program.Content.Node.{ContentNode, content_node_size, content_node_codec}
use txtcel_program.Content.Node.Laws.{
  ContentNodeInRange, content_node_codec-HasSize, content_node_codec-RoundTrips,
  content_node_codec-Canonical,
}
use txtcel_program.Processor.FillSlot.{
  Post, Posting, author_fee, charge_fees, fill_candidate, fill_first,
}

module _ (R : Runtime) (program_id : Pubkey) (p : Posting) (post : Post) where
  -- The message that a post is written as.
  abbrev pub message : CandidateSlot → ContentNode
  message candidate = record {
    header = record {
      tag = tag_content;
      alloc_seq = candidate.alloc_seq;
      slot = candidate.slot;
      thread = p.thread_key;
      author = p.payer.key;
      created_at = p.created_at;
      reply_alloc_seq = post.reply_alloc_seq;
      reply_slot = post.reply_slot;
    };
    kind = post.kind;
    body = post.body;
  }

  -- The two fees of the post.
  abbrev pub total_fee : ℕ
  total_fee =
      p.rent (content_node_size (length post.body)) * p.settings.base_fee_bps / 10000 % u64_mod
      + author_fee R program_id p post

  -- The candidate's account holds the message, within the cap, and no other data or owner changes.
  pub record Filled (candidate : CandidateSlot) (account : AccountInfo) (b b' : Bank) : Type 0 where
    pub stored : load_content R program_id account b' ≡ ok (message candidate)
    pub capped : total_fee ≤ post.max_fee
    pub frame : Frame account.key b b'

  -- The first free candidate is filled: the candidates before it are taken.
  pub data FirstFilled (b b' : Bank) : List CandidateSlot → List AccountInfo → Type 0 where
    here :
        {c : CandidateSlot} {cs : List CandidateSlot} {a : AccountInfo} {rest : List AccountInfo}
        → c.alloc_seq ≤ p.thread.last_alloc_seq
        → c.slot < content_slots
        → is_uninitialized R a b ≡ true
        → Filled c a b b'
        → FirstFilled b b' (c ∷ cs) (a ∷ rest)
    later :
        {c : CandidateSlot} {cs : List CandidateSlot} {a : AccountInfo} {rest : List AccountInfo}
        → is_uninitialized R a b ≡ false
        → FirstFilled b b' cs rest
        → FirstFilled b b' (c ∷ cs) (a ∷ rest)

module _ {R : Runtime} (L : IsRuntime R) (program_id : Pubkey) (p : Posting) (post : Post)
    (rent_ok : R.rent ≡ ok p.rent)
    (in_range : (c : CandidateSlot)
      → c.alloc_seq ≤ p.thread.last_alloc_seq
      → c.slot < content_slots
      → ContentNodeInRange (message R program_id p post c)) where
  pub charge_fees-capped :
      (b : Bank)
      → Holds
          (λ _ b'. (total_fee R program_id p post ≤ post.max_fee) × SameData b b')
          (charge_fees R program_id p post (p.rent (content_node_size (length post.body))) b)
  unfolding charge_fees
  charge_fees-capped b = Holds-check _ _ b λ product e. Holds-check _ _ b λ total e'.
      Holds-fail_if _ _ _ b λ small.
        let fee = author_fee R program_id p post in
        Holds-bind _ _ b (collect_base_fee-SameData L _ _ p.payer p.treasury_shard b) λ _ b1 s.
          Holds-mono
            (when-SameData (ltb 0 fee)
              (transfer_fee_split R fee p.settings.author_fee_cut_bps p.payer p.author_fee_shard
                p.treasury_shard)
              b1
              (transfer_fee_split-SameData L fee p.settings.author_fee_cut_bps p.payer
                p.author_fee_shard p.treasury_shard b1))
            λ _ b2 t. held (ground arith, SameData-trans b b1 b2 s t)

  fill_candidate-Filled :
      (c : CandidateSlot) (account : AccountInfo) (bump : ℕ) (b : Bank)
      → c.alloc_seq ≤ p.thread.last_alloc_seq
      → c.slot < content_slots
      → account.key ≡ (derive_content_pda R program_id p.thread_key c.alloc_seq c.slot).0
      → Holds
          (λ _ b'. Filled R program_id p post c account b b')
          (fill_candidate R program_id p post c account bump b)
  unfolding fill_candidate
  fill_candidate-Filled c account bump b hseq hslot at =
      let m = message R program_id p post c in
      let codec = content_node_codec R.borsh in
      let range = in_range c hseq hslot in
      Holds-check _ _ b λ _ _.
        Holds-bind _ _ b
          (create_pda_account-Created L program_id p.payer account p.system_program_account _ _ b
            rent_ok)
          λ _ b1 made.
            Holds-bind _ _ b1
              (write_new-Rewritten codec (content_node_codec-Canonical L.is_borsh) m
                (content_node_size (length post.body)) account b1
                (content_node_codec-HasSize L.is_borsh m)
                (content_node_codec-RoundTrips L.is_borsh m range) made.bytes)
              λ _ b2 w. Holds-mono (charge_fees-capped b2) λ _ b3 (capped, s). held (record {
                stored = (load_content_iff R program_id account b3 m).1 (
                  s.owner account.key ∙ w.owner ∙ made.owner,
                  ap (try_from_slice codec) (s.bytes account.key) ∙ w.decoded,
                  refl,
                  at,
                );
                capped = capped;
                frame =
                    SameData-Frame account.key b b2 b3
                      (Frame-others account.key b b1 b2 made.frame w.others) s;
              })

  pub fill_first-FirstFilled :
      (candidates : List CandidateSlot) (accounts : List AccountInfo) (b : Bank)
      → Holds
          (λ _ b'. FirstFilled R program_id p post b b' candidates accounts)
          (fill_first R program_id p post candidates accounts b)
  unfolding fill_first assert_pda check
  fill_first-FirstFilled [] accounts b = failed
  fill_first-FirstFilled (c ∷ cs) [] b = failed
  fill_first-FirstFilled (c ∷ cs) (account ∷ accounts) b = Holds-fail_if _ _ _ b λ hseq.
      Holds-fail_if _ _ _ b λ hslot. Holds-check _ _ b λ _ at. Holds-gets _ _ b (
        Holds-if (is_uninitialized R account b) _ _ b
          (λ free.
            Holds-mono
              (fill_candidate-Filled c account _ b (ground arith) (ground arith) (ground arith))
              λ _ b' f. held (here (ground arith) (ground arith) free f))
          (λ taken.
            Holds-mono (fill_first-FirstFilled cs accounts b) λ _ b' f. held (later taken f)))

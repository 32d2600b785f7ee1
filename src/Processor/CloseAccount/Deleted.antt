-- ===== src/Processor/CloseAccount/Deleted.antt =====
-- Deleting a message (src/processor/close_account.rs).
use txtcel_program.Base.{
  ℕ, zero, suc, ◌+◌, ◌<◌, ◌≡◌, ◌≢◌, refl, sym, ap, ◌∙◌, true, not, List, [], ◌∷◌, length, get_elem?,
  some, set, arith,
}
use txtcel_program.Error.{ok}
use txtcel_program.Runtime.{Pubkey, Account, Bank, AccountInfo, Runtime}
use txtcel_program.Runtime.Laws.{IsRuntime}
use txtcel_program.Runtime.Hoare.{
  Holds, held, at_ok, Holds-bind, Holds-check, Holds-gets, Holds-fail_if, Holds-if, Holds-mono,
  Holds-next, Holds-pure,
}
use txtcel_program.State.Accounts.{AllocLikes}
use txtcel_program.State.Asserts.{is_uninitialized}
use txtcel_program.State.Asserts.Facts.{assert_signer_ok}
use txtcel_program.State.AccountUtils.Closing.{close_program_account-Closed}
use txtcel_program.Content.{load_content}
use txtcel_program.Content.Node.{ContentNode}
use txtcel_program.Processor.LikeContent.Counts.{Counted, store-Counted}
use txtcel_program.Processor.CloseAccount.{
  set_count, write_reset, reset_likes, process_close_account,
}

set_count_ok :
    (counts : List ℕ) (slot v : ℕ) (b : Bank) (r : List ℕ)
    → set_count counts slot v b ≡ ok r
    → (slot < length counts) × (set counts slot v ≡ r)
set_count_ok counts slot v b r e = (ground arith, ground arith)

get_elem?-inside : (xs : List ℕ) (i : ℕ) → i < length xs → (n : ℕ) × (get_elem? xs i ≡ some n)
get_elem?-inside [] i h = absurd (omega arith)
get_elem?-inside (x ∷ xs) zero h = (x, refl)
get_elem?-inside (x ∷ xs) (suc i) h = get_elem?-inside xs i (omega arith)

module _ (R : Runtime) (program_id : Pubkey) (payer target_account : AccountInfo) where
  -- The message's account is gone, and its author has its balance.
  pub record Deleted (b b' : Bank) : Type 0 where
    pub content : ContentNode
    pub signed : payer.is_signer ≡ true
    pub loaded : load_content R program_id target_account b ≡ ok content
    pub by_author : content.header.author ≡ payer.key
    pub emptied : (b' target_account.key).bytes ≡ []
    pub released : (b' target_account.key).owner ≡ R.system_id
    pub drained : (b' target_account.key).lamports ≡ 0
    pub refunded :
        (b' payer.key).lamports ≡ (b payer.key).lamports + (b target_account.key).lamports
    pub others :
        (k : Pubkey) → k ≢ payer.key → k ≢ target_account.key → (b' k).lamports ≡ (b k).lamports

module _ {R : Runtime} (L : IsRuntime R) (program_id : Pubkey) where
  resets :
      (likes_account : AccountInfo) (content : ContentNode) (b : Bank)
      → Holds
          (λ _ b'.
            (c : Counted R likes_account content.header.slot b b') × (c.old.alloc_seq
              ≡ content.header.alloc_seq)
            × (c.after ≡ 0))
          (write_reset R program_id likes_account content b)
  unfolding write_reset
  resets likes_account content b = Holds-check _ _ b λ _ _. Holds-check _ _ b λ _ _.
      Holds-check _ _ b λ old loaded. Holds-fail_if _ _ _ b λ same_seq.
        Holds-check _ _ b λ counts reset.
          let slot = content.header.slot in
          let (inside, same) = set_count_ok old.counts slot 0 b counts reset in
          let (n, found) = get_elem?-inside old.counts slot inside in
          rw (sym same) (
            Holds-mono
              (store-Counted L program_id likes_account old slot n 0 b loaded found (omega arith))
              λ _ b' (c, e, e').
                let same_old : c.old ≡ old = cc in
                let of_alloc : old.alloc_seq ≡ content.header.alloc_seq = ground arith in
                held (c, ap (λ (x : AllocLikes). x.alloc_seq) same_old ∙ of_alloc, e'))

  reset_likes-lamports :
      (likes_accounts : List AccountInfo) (content : ContentNode) (b : Bank)
      → Holds
          (λ _ b'. (k : Pubkey) → (b' k).lamports ≡ (b k).lamports)
          (reset_likes R program_id likes_accounts content b)
  unfolding reset_likes
  reset_likes-lamports [] content b = Holds-pure tt b (λ k. refl)
  reset_likes-lamports (account ∷ rest) content b = Holds-check _ _ b λ _ _. Holds-gets _ _ b (
      Holds-if (not (is_uninitialized R account b)) _ _ b
        (λ used. Holds-mono (resets account content b) λ _ b' (c, _, _). held c.lamports)
        (λ fresh. Holds-pure tt b (λ k. refl)))

  module _ (payer target_account : AccountInfo) (likes_accounts : List AccountInfo) where
    deletes :
        (b : Bank)
        → payer.key ≢ target_account.key
        → Holds
            (λ _ b'. Deleted R program_id payer target_account b b')
            (process_close_account R program_id (payer ∷ target_account ∷ likes_accounts) b)
    unfolding process_close_account
    deletes b apart = Holds-next _ _ _ b (
        Holds-next _ _ _ b (
          Holds-check _ _ b λ _ signed. Holds-check _ _ b λ _ _. Holds-check _ _ b λ _ _.
            Holds-check _ _ b λ tag _. Holds-fail_if _ _ _ b λ _.
              Holds-check _ _ b λ content loaded. Holds-fail_if _ _ _ b λ author.
                Holds-bind _ _ b (reset_likes-lamports likes_accounts content b) λ _ b1 kept.
                  Holds-mono (close_program_account-Closed L target_account payer b1 apart)
                    λ _ b' c. held (record {
                      content = content;
                      signed = assert_signer_ok payer b signed;
                      loaded = loaded;
                      by_author = ground arith;
                      emptied = c.bytes;
                      released = c.owner;
                      drained = c.lamports;
                      refunded = omega (arith, c.refunded, kept payer.key, kept target_account.key);
                      others =
                          λ k ne ne'. ap (λ (t : Account). t.lamports) (c.others k ne ne') ∙ kept k;
                    })))

    -- Where the payer's address is not the message's, a deletion that succeeds was signed by the author of
    -- the message; its account is emptied and released, the author has its whole balance, and no other
    -- balance changes.
    pub process_close_account-Deleted :
        (b b' : Bank)
        → payer.key ≢ target_account.key
        → process_close_account R program_id (payer ∷ target_account ∷ likes_accounts) b
          ≡ ok (tt, b')
        → Deleted R program_id payer target_account b b'
    process_close_account-Deleted b b' apart = at_ok (deletes b apart)

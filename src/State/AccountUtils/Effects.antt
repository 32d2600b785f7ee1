-- ===== src/State/AccountUtils/Effects.antt =====
-- What creating, closing and topping up an account does (src/state/account_utils.rs).
use mathlib.Core.Path.{subst}
use txtcel_program.Base.{
  ℕ, ◌+◌, ◌-◌, ◌≤◌, ◌<◌, ◌≡◌, ◌≢◌, refl, sym, ap, ◌∙◌, ltb, ◌==◌, List, [], ◌∷◌, max, replicate,
  arith,
}
use txtcel_program.Error.{ok}
use txtcel_program.Runtime.{Pubkey, Account, Bank, AccountInfo, set_owner, Seeds, Runtime}
use txtcel_program.Runtime.Laws.{IsRuntime, moved}
use txtcel_program.Runtime.Tx.{run, when}
use txtcel_program.Runtime.Hoare.{
  Holds, held, Holds-bind, Holds-check, Holds-gets, Holds-lift, Holds-run, Holds-if, Holds-mono,
  Holds-pure,
}
use txtcel_program.State.AccountUtils.{ensure_rent_exempt, create_pda_account}

-- No account but `target` changes its data or its owner.
pub record Frame (target : Pubkey) (b b' : Bank) : Type 0 where
  pub bytes : (k : Pubkey) → k ≢ target → (b' k).bytes ≡ (b k).bytes
  pub owner : (k : Pubkey) → k ≢ target → (b' k).owner ≡ (b k).owner

pub Frame-others :
    (target : Pubkey) (b b1 b' : Bank)
    → Frame target b b1
    → ((k : Pubkey) → k ≢ target → b' k ≡ b1 k)
    → Frame target b b'
Frame-others target b b1 b' f others = record {
  bytes = λ k ne. ap (λ (t : Account). t.bytes) (others k ne) ∙ f.bytes k ne;
  owner = λ k ne. ap (λ (t : Account). t.owner) (others k ne) ∙ f.owner k ne;
}

pub Frame-of_others :
    (target : Pubkey) (b b' : Bank) → ((k : Pubkey) → k ≢ target → b' k ≡ b k) → Frame target b b'
Frame-of_others target b b' others =
    Frame-others target b b b' (record { bytes = λ k ne. refl; owner = λ k ne. refl }) others

-- A new account: owned by the program, zeroed, and with the balance that rent exemption asks for,
-- which the payer made up.
pub record Created (program_id : Pubkey) (payer target : Pubkey) (required space : ℕ) (b b' : Bank)
    : Type 0 where
  pub owner : (b' target).owner ≡ program_id
  pub bytes : (b' target).bytes ≡ replicate space 0
  pub lamports : payer ≢ target → (b' target).lamports ≡ max (b target).lamports required
  pub paid :
      payer ≢ target
      → (b' payer).lamports + (b' target).lamports ≡ (b payer).lamports + (b target).lamports
  pub others : (k : Pubkey) → k ≢ payer → k ≢ target → (b' k).lamports ≡ (b k).lamports
  pub frame : Frame target b b'

-- A top-up of `target` by `payer` to `minimum`, as a fact about the balances and the data.
pub record ToppedUp (payer target : Pubkey) (minimum : ℕ) (b b' : Bank) : Type 0 where
  pub lamports : payer ≢ target → (b' target).lamports ≡ max (b target).lamports minimum
  pub paid :
      payer ≢ target
      → (b' payer).lamports + (b' target).lamports ≡ (b payer).lamports + (b target).lamports
  pub others : (k : Pubkey) → k ≢ payer → k ≢ target → (b' k).lamports ≡ (b k).lamports
  pub bytes : (k : Pubkey) → (b' k).bytes ≡ (b k).bytes
  pub owner : (k : Pubkey) → (b' k).owner ≡ (b k).owner

moved-ToppedUp :
    (payer target : Pubkey) (minimum : ℕ) (b : Bank)
    → (b target).lamports < minimum
    → minimum - (b target).lamports ≤ (b payer).lamports
    → ToppedUp payer target minimum b (moved payer target (minimum - (b target).lamports) b)
moved-ToppedUp payer target minimum b short funded = record {
  lamports = λ ne. ground arith;
  paid = λ ne. ground arith;
  others = λ k ne ne'. ground arith;
  bytes = λ k. ground arith;
  owner = λ k. ground arith;
}

module _ {R : Runtime} (L : IsRuntime R) where
  pub top_up-ToppedUp :
      (payer target : AccountInfo) (minimum : ℕ) (b : Bank)
      → Holds
          (λ _ b'. ToppedUp payer.key target.key minimum b b')
          (when
            (ltb (b target.key).lamports minimum)
            (run (R.transfer payer target (minimum - (b target.key).lamports)))
            b)
  top_up-ToppedUp payer target minimum b =
      let current = (b target.key).lamports in
      Holds-if (ltb current minimum) _ _ b
        (λ t. Holds-mono (Holds-run _ b) λ _ b' e.
          let (funded, same) = L.transfer_ok payer target (minimum - current) b b' e in
          held (
            subst (ToppedUp payer.key target.key minimum b) (sym same)
              (moved-ToppedUp payer.key target.key minimum b (ground arith) funded)))
        (λ t. Holds-pure tt b (record {
          lamports = λ ne. ground arith;
          paid = λ ne. refl;
          others = λ k ne ne'. refl;
          bytes = λ k. refl;
          owner = λ k. refl;
        }))

  -- `ensure_rent_exempt` leaves the account with at least the minimum for its length.
  pub ensure_rent_exempt-ToppedUp :
      (payer target : AccountInfo) (data_len : ℕ) {rent : ℕ → ℕ} (b : Bank)
      → R.rent ≡ ok rent
      → Holds
          (λ _ b'. ToppedUp payer.key target.key (rent data_len) b b')
          (ensure_rent_exempt R payer target data_len b)
  unfolding ensure_rent_exempt
  ensure_rent_exempt-ToppedUp payer target data_len {rent} b rent_ok =
      Holds-lift _ _ b rent_ok (Holds-gets _ _ b (top_up-ToppedUp payer target (rent data_len) b))

  create_account-Created :
      (program_id : Pubkey) (payer target : AccountInfo) (required space : ℕ) (seeds : List Seeds)
      (b b' : Bank)
      → (b target.key).lamports ≡ 0
      → R.create_account payer target required space program_id seeds b ≡ ok b'
      → Created program_id payer.key target.key required space b b'
  create_account-Created program_id payer target required space seeds b b' zero e =
      let (funded, same) =
        L.create_account_ok payer target required space program_id seeds b b' e in
      subst (Created program_id payer.key target.key required space b) (sym same) (record {
        owner = ground arith;
        bytes = ground arith;
        lamports = λ ne. ground arith;
        paid = λ ne. ground arith;
        others = λ k ne ne'. ground arith;
        frame = record { bytes = λ k ne. ground arith; owner = λ k ne. ground arith };
      })

  taken_over-Created :
      (program_id : Pubkey) (payer target : AccountInfo) (required space : ℕ) (seeds : List Seeds)
      (b b1 b2 b3 : Bank)
      → ToppedUp payer.key target.key required b b1
      → R.allocate target space seeds b1 ≡ ok b2
      → R.assign target program_id seeds b2 ≡ ok b3
      → Created program_id payer.key target.key required space b b3
  taken_over-Created program_id payer target required space seeds b b1 b2 b3 up e2 e3 =
      subst (Created program_id payer.key target.key required space b)
        (sym (
          L.assign_ok target program_id seeds b2 b3 e3
          ∙ ap (λ (t : Bank). set_owner t target.key program_id)
              (L.allocate_ok target space seeds b1 b2 e2)))
        (record {
          owner = ground arith;
          bytes = ground arith;
          lamports = λ ne. ground (arith, up.lamports ne);
          paid = λ ne. ground (arith, up.paid ne);
          others = λ k ne ne'. ground (arith, up.others k ne ne');
          frame = record {
            bytes = λ k ne. ground (arith, up.bytes k);
            owner = λ k ne. ground (arith, up.owner k);
          };
        })

  -- Where rent is known, a creation that succeeds leaves an account owned by the program, of zeros and
  -- of the size asked for. Its balance is the greater of what the address held beforehand and the
  -- minimum for rent exemption, where the payer is another account, which pays the difference. No
  -- other balance, data or owner changes.
  pub create_pda_account-Created :
      (program_id : Pubkey) (payer target system_program_account : AccountInfo) (space : ℕ)
      (seeds : Seeds) {rent : ℕ → ℕ} (b : Bank)
      → R.rent ≡ ok rent
      → Holds
          (λ _ b'. Created program_id payer.key target.key (rent space) space b b')
          (create_pda_account R program_id payer target system_program_account space seeds b)
  unfolding create_pda_account
  create_pda_account-Created program_id payer target system_program_account space seeds {rent} b
        rent_ok =
      Holds-check _ _ b λ _ _. Holds-lift _ _ b rent_ok (
        Holds-gets _ _ b (
          Holds-if ((b target.key).lamports == 0) _ _ b
            (λ t. Holds-mono (Holds-run _ b) λ _ b' e. held (
              create_account-Created program_id payer target (rent space) space (seeds ∷ []) b b'
                (ground arith) e))
            (λ t. Holds-bind _ _ b (top_up-ToppedUp payer target (rent space) b) λ _ b1 up.
              Holds-bind _ _ b1 (Holds-run _ b1) λ _ b2 e2. Holds-mono (Holds-run _ b2) λ _ b3 e3.
                held (
                  taken_over-Created program_id payer target (rent space) space (seeds ∷ []) b b1 b2
                    b3 up e2 e3))))

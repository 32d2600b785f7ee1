-- ===== src/State/Fees/Ready.antt =====
-- What setting up one fee shard leaves behind (`ensure_shard_initialized` in src/state/fees.rs).
use txtcel_program.Base.{ℕ, ◌+◌, ◌≡◌, ◌≢◌, refl, ◌∙◌, true, false, max, []}
use txtcel_program.Error.{ok}
use txtcel_program.Runtime.{Pubkey, Bank, AccountInfo, Seeds, Runtime}
use txtcel_program.Runtime.Laws.{IsRuntime}
use txtcel_program.Runtime.Hoare.{Holds, held, Holds-gets, Holds-if, Holds-mono, Holds-pure}
use txtcel_program.State.Asserts.{is_uninitialized}
use txtcel_program.State.AccountUtils.Effects.{Frame, create_pda_account-Created}
use txtcel_program.State.Fees.{ensure_shard_initialized}

-- One account stays as it is.
pub record Same (k : Pubkey) (b b' : Bank) : Type 0 where
  pub lamports : (b' k).lamports ≡ (b k).lamports
  pub bytes : (b' k).bytes ≡ (b k).bytes
  pub owner : (b' k).owner ≡ (b k).owner

Same-refl : (k : Pubkey) (b : Bank) → Same k b b
Same-refl k b = record { lamports = refl; bytes = refl; owner = refl }

pub Same-trans : (k : Pubkey) (b b1 b2 : Bank) → Same k b b1 → Same k b1 b2 → Same k b b2
Same-trans k b b1 b2 p q = record {
  lamports = q.lamports ∙ p.lamports;
  bytes = q.bytes ∙ p.bytes;
  owner = q.owner ∙ p.owner;
}

-- An empty account of the program, with at least the minimum for rent exemption.
pub record Opened (program_id shard : Pubkey) (rent_min : ℕ) (b b' : Bank) : Type 0 where
  pub owner : (b' shard).owner ≡ program_id
  pub bytes : (b' shard).bytes ≡ []
  pub lamports : (b' shard).lamports ≡ max (b shard).lamports rent_min

-- A shard that did not exist is opened, and one that did stays as it is.
pub record Ready (R : Runtime) (program_id : Pubkey) (shard : AccountInfo) (rent_min : ℕ)
    (b b' : Bank) : Type 0 where
  pub opened : is_uninitialized R shard b ≡ true → Opened program_id shard.key rent_min b b'
  pub kept : is_uninitialized R shard b ≡ false → Same shard.key b b'

-- What a run for one shard does to it, to the payer and to the others.
pub record Ensured (R : Runtime) (program_id payer : Pubkey) (shard : AccountInfo) (rent_min : ℕ)
    (b b' : Bank) : Type 0 where
  pub ready : Ready R program_id shard rent_min b b'
  pub paid :
      (b' payer).lamports + (b' shard.key).lamports ≡ (b payer).lamports + (b shard.key).lamports
  pub others : (k : Pubkey) → k ≢ payer → k ≢ shard.key → (b' k).lamports ≡ (b k).lamports
  pub frame : Frame shard.key b b'

module _ {R : Runtime} (L : IsRuntime R) (program_id : Pubkey) {rent : ℕ → ℕ}
    (rent_ok : R.rent ≡ ok rent) where
  pub ensure_shard_initialized-Ensured :
      (payer shard system_program_account : AccountInfo) (seeds : Seeds) (bump : ℕ) (b : Bank)
      → payer.key ≢ shard.key
      → Holds
          (λ _ b'. Ensured R program_id payer.key shard (rent 0) b b')
          (ensure_shard_initialized R program_id payer shard system_program_account seeds bump b)
  unfolding ensure_shard_initialized
  ensure_shard_initialized-Ensured payer shard system_program_account seeds bump b apart =
      Holds-gets _ _ b (
        Holds-if (is_uninitialized R shard b) _ _ b
          (λ fresh.
            Holds-mono
              (create_pda_account-Created L program_id payer shard system_program_account _ _ b
                rent_ok)
              λ _ b' made. held (record {
                ready = record {
                  opened = λ _. record {
                    owner = made.owner;
                    bytes = made.bytes;
                    lamports = made.lamports apart;
                  };
                  kept = λ taken. absurd cc;
                };
                paid = made.paid apart;
                others = made.others;
                frame = made.frame;
              }))
          (λ taken. Holds-pure tt b (record {
            ready = record { opened = λ fresh. absurd cc; kept = λ _. Same-refl shard.key b };
            paid = refl;
            others = λ k _ _. refl;
            frame = record { bytes = λ k _. refl; owner = λ k _. refl };
          })))

-- An account that another shard's set-up left alone is as new as it was.
is_uninitialized-Same :
    (R : Runtime) (shard : AccountInfo) (b b1 : Bank)
    → Same shard.key b b1
    → is_uninitialized R shard b1 ≡ is_uninitialized R shard b
unfolding is_uninitialized
is_uninitialized-Same R shard b b1 s = rw (s.owner, s.bytes)

module _ {R : Runtime} (program_id : Pubkey) where
  pub Ensured-Same :
      (payer : Pubkey) (shard : AccountInfo) (rent_min : ℕ) (k : Pubkey) (b b' : Bank)
      → Ensured R program_id payer shard rent_min b b'
      → k ≢ payer
      → k ≢ shard.key
      → Same k b b'
  Ensured-Same payer shard rent_min k b b' e np ns = record {
    lamports = e.others k np ns;
    bytes = e.frame.bytes k ns;
    owner = e.frame.owner k ns;
  }

  pub Ready-then :
      (shard : AccountInfo) (rent_min : ℕ) (b b1 b2 : Bank)
      → Ready R program_id shard rent_min b b1
      → Same shard.key b1 b2
      → Ready R program_id shard rent_min b b2
  Ready-then shard rent_min b b1 b2 r s = record {
    opened = λ fresh.
        let o = r.opened fresh in
        record {
          owner = s.owner ∙ o.owner;
          bytes = s.bytes ∙ o.bytes;
          lamports = s.lamports ∙ o.lamports;
        };
    kept = λ taken. Same-trans shard.key b b1 b2 (r.kept taken) s;
  }

  pub Ready-from :
      (shard : AccountInfo) (rent_min : ℕ) (b b1 b2 : Bank)
      → Same shard.key b b1
      → Ready R program_id shard rent_min b1 b2
      → Ready R program_id shard rent_min b b2
  Ready-from shard rent_min b b1 b2 s r =
      let same = is_uninitialized-Same R shard b b1 s in
      record {
        opened = λ fresh.
            let o = r.opened (same ∙ fresh) in
            record { owner = o.owner; bytes = o.bytes; lamports = rw (← s.lamports) o.lamports };
        kept = λ taken. Same-trans shard.key b b1 b2 s (r.kept (same ∙ taken));
      }

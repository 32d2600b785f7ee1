-- ===== src/Runtime/Storage.antt =====
-- What an account holds after a value was written into it, and what it held before it was read.
use mathlib.Core.Path.{subst}
use mathlib.Core.List.{append-nil}
use txtcel_program.Base.{
  ℕ, ◌≤◌, ◌≡◌, refl, sym, ap, ◌∙◌, true, Option, none, some, [], ◌∷◌, ◌++◌, length, drop, ◌≢◌,
  ==_refl, ==_iff, ◌==◌, Bool-cases, inl, inr, replicate, length-replicate, drop-length, leb, arith,
}
use txtcel_program.Error.{ok}
use txtcel_program.Borsh.{Bytes, Codec, try_from_slice, deserialize, whole, prefix}
use txtcel_program.Borsh.Laws.{HasSize, RoundTrips, IsFront, Canonical}
use txtcel_program.Runtime.{Pubkey, Account, Bank, AccountInfo, set_bytes}
use txtcel_program.Runtime.Hoare.{Holds, held}
use txtcel_program.Runtime.Tx.{serialize, overwrite}

le→leb : (m n : Bytes) → length m ≤ length n → leb (length m) (length n) ≡ true
le→leb m n h = ground arith

overwrite_prefix :
    (new old : Bytes)
    → length new ≤ length old
    → overwrite new old ≡ ok (new ++ drop (length new) old)
overwrite_prefix new old h = rw (le→leb new old h)

overwrite_exact : (new old : Bytes) → length new ≡ length old → overwrite new old ≡ ok new
overwrite_exact new old h =
    overwrite_prefix new old (omega arith)
    ∙ rw (drop-length (length new) old (omega arith), append-nil new)

module _ {A : Type 0} (c : Codec A) (x : A) where
  -- Data that is long enough keeps what stands behind the value.
  pub serialize_prefix :
      (account : AccountInfo) (b : Bank)
      → length (c.put x []) ≤ length (b account.key).bytes
      → serialize c x account b
        ≡ ok (
          tt,
          set_bytes b account.key (c.put x [] ++ drop (length (c.put x [])) (b account.key).bytes),
        )
  unfolding serialize
  serialize_prefix account b h = rw (overwrite_prefix (c.put x []) (b account.key).bytes h)

  -- Data of exactly the size of the value is replaced by its encoding.
  pub serialize_exact :
      (account : AccountInfo) (b : Bank)
      → length (c.put x []) ≡ length (b account.key).bytes
      → serialize c x account b ≡ ok (tt, set_bytes b account.key (c.put x []))
  unfolding serialize
  serialize_exact account b h = rw (overwrite_exact (c.put x []) (b account.key).bytes h)

  pub try_from_slice-put : RoundTrips c x → try_from_slice c (c.put x []) ≡ some x
  try_from_slice-put h = rw (h [])

  pub deserialize-put :
      (rest : Bytes)
      → IsFront (c.put x)
      → RoundTrips c x
      → deserialize c (c.put x [] ++ rest) ≡ some x
  deserialize-put rest f h = rw (← f rest, h rest)

-- A value that fills the data stands at its front.
pub deserialize_of_try_from_slice :
    {A : Type 0} (c : Codec A) (bytes : Bytes) (x : A)
    → try_from_slice c bytes ≡ some x
    → deserialize c bytes ≡ some x
deserialize_of_try_from_slice {A} c bytes x e = go (c.get bytes) e
  where
    go : (r : Option (A × Bytes)) → whole r ≡ some x → prefix r ≡ some x
    go none q = cc
    go (some (y, [])) q = q
    go (some (y, d ∷ ds)) q = cc

module _ {A : Type 0} {P : A → Type 0} (c : Codec A) (canonical : Canonical c P) where
  -- What `try_from_slice` accepts is an encoding and no more.
  pub try_from_slice-some :
      (bytes : Bytes) (x : A) → try_from_slice c bytes ≡ some x → (bytes ≡ c.put x []) × P x
  try_from_slice-some bytes x e = go (c.get bytes) refl e
    where
      go :
          (r : Option (A × Bytes)) → c.get bytes ≡ r → whole r ≡ some x → (bytes ≡ c.put x []) × P x
      go none p q = cc
      go (some (y, [])) p q =
          let same : y ≡ x = cc in
          let (e, h) = canonical bytes y [] p in
          (subst (λ z. bytes ≡ c.put z []) same e, subst P same h)
      go (some (y, d ∷ ds)) p q = cc

  pub deserialize-some :
      (bytes : Bytes) (x : A)
      → deserialize c bytes ≡ some x
      → (rest : Bytes) × (bytes ≡ c.put x rest) × P x
  deserialize-some bytes x e = go (c.get bytes) refl e
    where
      go :
          (r : Option (A × Bytes))
          → c.get bytes ≡ r
          → prefix r ≡ some x
          → (rest : Bytes) × (bytes ≡ c.put x rest) × P x
      go none p q = cc
      go (some (y, rest)) p q =
          let same : y ≡ x = cc in
          let (e, h) = canonical bytes y rest p in
          (rest, subst (λ z. bytes ≡ c.put z rest) same e, subst P same h)

-- An account that holds a value takes another of the same size.
pub rewrite_exact :
    {A : Type 0} {P : A → Type 0} (c : Codec A) (canonical : Canonical c P) (x y : A) (n : ℕ)
    (account : AccountInfo) (b : Bank)
    → HasSize c x n
    → HasSize c y n
    → try_from_slice c (b account.key).bytes ≡ some x
    → serialize c y account b ≡ ok (tt, set_bytes b account.key (c.put y []))
rewrite_exact c canonical x y n account b sx sy e =
    let (same, _) = try_from_slice-some c canonical (b account.key).bytes x e in
    serialize_exact c y account b (sy [] ∙ sym (sx []) ∙ sym (ap length same))

-- The account is read as `y`, and nothing but its data has changed.
pub record Rewritten {A : Type 0} (decode : Bytes → Option A) (key : Pubkey) (y : A) (b b' : Bank)
    : Type 0 where
  pub decoded : decode (b' key).bytes ≡ some y
  pub lamports : (b' key).lamports ≡ (b key).lamports
  pub owner : (b' key).owner ≡ (b key).owner
  pub others : (k : Pubkey) → k ≢ key → b' k ≡ b k

-- Writing data moves no lamports.
pub Rewritten-lamports :
    {A : Type 0} {decode : Bytes → Option A} {key : Pubkey} {y : A} {b b' : Bank}
    → Rewritten decode key y b b'
    → (k : Pubkey) → (b' k).lamports ≡ (b k).lamports
Rewritten-lamports {key = key} {b = b} {b' = b'} w k = elim (Bool-cases (k == key)) [
  | inl same ↦ rw ((==_iff k key).0 same) w.lamports
  | inr differs ↦ ap (λ (t : Account). t.lamports) (w.others k (ground arith))
]

set_bytes-Rewritten :
    {A : Type 0} (decode : Bytes → Option A) (key : Pubkey) (y : A) (b : Bank) (bytes : Bytes)
    → decode bytes ≡ some y
    → Rewritten decode key y b (set_bytes b key bytes)
set_bytes-Rewritten decode key y b bytes e = record {
  decoded = rw (==_refl key) e;
  lamports = rw (==_refl key);
  owner = rw (==_refl key);
  others = λ k ne. ground arith;
}

module _ {A : Type 0} {P : A → Type 0} (c : Codec A) (canonical : Canonical c P) where
  -- Writing a value over one of the same size.
  pub rewrite-Rewritten :
      (x y : A) (n : ℕ) (account : AccountInfo) (b : Bank)
      → HasSize c x n
      → HasSize c y n
      → RoundTrips c y
      → try_from_slice c (b account.key).bytes ≡ some x
      → Holds (λ _ b'. Rewritten (try_from_slice c) account.key y b b') (serialize c y account b)
  rewrite-Rewritten x y n account b sx sy round e =
      rw (rewrite_exact c canonical x y n account b sx sy e) (
        held (
          set_bytes-Rewritten (try_from_slice c) account.key y b (c.put y [])
            (try_from_slice-put c y round)))

  -- Writing a value into the zeroed data of a new account of its size.
  pub write_new-Rewritten :
      (y : A) (n : ℕ) (account : AccountInfo) (b : Bank)
      → HasSize c y n
      → RoundTrips c y
      → (b account.key).bytes ≡ replicate n 0
      → Holds (λ _ b'. Rewritten (try_from_slice c) account.key y b b') (serialize c y account b)
  write_new-Rewritten y n account b sy round e =
      rw
        (serialize_exact c y account b
          (omega (arith, sy [], ap length e, length-replicate {A = ℕ} n 0)))
        (held (
          set_bytes-Rewritten (try_from_slice c) account.key y b (c.put y [])
            (try_from_slice-put c y round)))

  -- The same for a reader that allows more data behind the value.
  pub rewrite-Rewritten_prefix :
      (x y : A) (n : ℕ) (account : AccountInfo) (b : Bank)
      → HasSize c x n
      → HasSize c y n
      → IsFront (c.put y)
      → RoundTrips c y
      → deserialize c (b account.key).bytes ≡ some x
      → Holds (λ _ b'. Rewritten (deserialize c) account.key y b b') (serialize c y account b)
  rewrite-Rewritten_prefix x y n account b sx sy front round e =
      let (rest, same, _) = deserialize-some c canonical (b account.key).bytes x e in
      rw (serialize_prefix c y account b (omega (arith, sy [], sx rest, ap length same))) (
        held (
          set_bytes-Rewritten (deserialize c) account.key y b _
            (deserialize-put c y _ front round)))

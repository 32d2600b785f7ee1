-- ===== src/Processor/AppendContent/Appended.antt =====
-- Growing a message (src/processor/append_content.rs).
use txtcel_program.Base.{
  Option, none, to_le_bytes, ℕ, zero, suc, [], min, ==_refl, ◌+◌, ◌-◌, ◌≤◌, ◌≡◌, ◌≢◌, refl, sym, ap,
  ◌∙◌, true, ltb, List, ◌∷◌, ◌++◌, length, take, replicate, length-append, length-replicate, some,
  All, checked_sub_i64, arith,
}
use txtcel_program.Base.Int.{ℤ, ◌≤ℤ◌}
use txtcel_program.Error.{ok}
use txtcel_program.Borsh.{Bytes}
use txtcel_program.Borsh.Laws.{Fits}
use txtcel_program.Runtime.{Pubkey, Bank, AccountInfo, Runtime, Seeds}
use txtcel_program.Runtime.Laws.{IsRuntime, resized}
use txtcel_program.Runtime.Tx.{serialize, when, ◌>>◌}
use txtcel_program.Runtime.Hoare.{
  Holds, held, at_ok, Holds-bind, Holds-check, Holds-gets, Holds-lift, Holds-run, Holds-next,
  Holds-fail_if, Holds-if, Holds-mono, Holds-pure,
}
use txtcel_program.Runtime.Storage.{serialize_exact, try_from_slice-some, try_from_slice-put}
use txtcel_program.State.Constants.{max_body_len, treasury_shard_seed}
use txtcel_program.State.Asserts.Facts.{assert_signer_ok, assert_owned_by_ok}
use txtcel_program.State.AccountUtils.Effects.{top_up-ToppedUp}
use txtcel_program.State.Fees.{ensure_shard_initialized, collect_base_fee}
use txtcel_program.State.Fees.Payment.{collect_base_fee-SameData}
use txtcel_program.State.Fees.Undisturbed.{
  Undisturbed, Undisturbed-trans, SameData-Undisturbed, ensure_shard_initialized-Undisturbed,
}
use txtcel_program.Content.{load_content}
use txtcel_program.Content.Facts.{load_content_iff}
use txtcel_program.Content.Node.{ContentNode, content_node_size, content_node_codec}
use txtcel_program.Content.Node.Laws.{
  ContentNodeInRange, content_node_codec-HasSize, content_node_codec-RoundTrips,
  content_node_codec-Canonical,
}
use txtcel_program.Processor.AppendContent.{append_window_secs, or_panic, process_append_content}

abbrev pub longer : ContentNode → Bytes → ContentNode
longer c chunk = record c { body = c.body ++ chunk }

-- The author's message has the chunk at its end, in time and within the limit.
pub record Appended (R : Runtime) (program_id : Pubkey) (payer content_account : AccountInfo)
    (now : ℤ) (chunk : Bytes) (b b' : Bank) : Type 0 where
  pub old : ContentNode
  pub age : ℤ
  pub signed : payer.is_signer ≡ true
  pub loaded : load_content R program_id content_account b ≡ ok old
  pub by_author : old.header.author ≡ payer.key
  pub aged : checked_sub_i64 now old.header.created_at ≡ some age
  pub in_time : age ≤ℤ append_window_secs
  pub short : length old.body + length chunk ≤ max_body_len
  pub stored : load_content R program_id content_account b' ≡ ok (longer old chunk)

length-take : (n : ℕ) (xs : Bytes) → length (take n xs) ≡ min n (length xs)
length-take zero xs = omega arith
length-take (suc n) [] = omega arith
length-take (suc n) (x ∷ xs) = omega (arith, length-take n xs)

length-resized : (bytes : Bytes) (n : ℕ) → length (resized bytes n) ≡ n
length-resized bytes n = omega (
  arith,
  length-append (take n bytes) (replicate (n - length bytes) 0),
  length-take n bytes,
  length-replicate {A = ℕ} (n - length bytes) 0,
)

pub All-append :
    (w : ℕ) (xs ys : Bytes) → All (Fits w) xs → All (Fits w) ys → All (Fits w) (xs ++ ys)
All-append w [] ys h h' = h'
All-append w (x ∷ xs) ys (hx, h) h' = (hx, All-append w xs ys h h')

module _ {R : Runtime} (L : IsRuntime R) (program_id : Pubkey) (content_account : AccountInfo)
    (chunk : Bytes) (bytes_of : All (Fits 1) chunk) where
  -- The write, into an account of the new size.
  store-longer :
      (old : ContentNode) (b b1 : Bank)
      → load_content R program_id content_account b ≡ ok old
      → length old.body + length chunk ≤ max_body_len
      → (b1 content_account.key).owner ≡ program_id
      → length (b1 content_account.key).bytes ≡ content_node_size (length (old.body ++ chunk))
      → Holds
          (λ _ b'. load_content R program_id content_account b' ≡ ok (longer old chunk))
          (serialize (content_node_codec R.borsh) (longer old chunk) content_account b1)
  store-longer old b b1 loaded short owned size =
      let l = L.is_borsh in
      let c = content_node_codec R.borsh in
      let new = longer old chunk in
      let (_, decoded, tagged, at) =
        (load_content_iff R program_id content_account b old).0 loaded in
      let known = (try_from_slice-some c (content_node_codec-Canonical l) _ old decoded).1 in
      let range : ContentNodeInRange new = record {
        header = known.header;
        kind = known.kind;
        body_length = omega (arith, length-append old.body chunk);
        body = All-append 1 old.body chunk known.body bytes_of;
      } in
      rw
        (serialize_exact c new content_account b1
          (omega (arith, content_node_codec-HasSize l new [], size)))
        (held (
          (load_content_iff R program_id content_account _ new).1 (
            rw (==_refl content_account.key) owned,
            rw (==_refl content_account.key)
                (try_from_slice-put c new (content_node_codec-RoundTrips l new range)),
            tagged,
            at,
          )))

  module _ (payer shard system_program : AccountInfo) (seeds : Seeds) (bump : ℕ) {rent : ℕ → ℕ}
      (rent_ok : R.rent ≡ ok rent) (ours : program_id ≢ R.system_id) where
    -- The fee for the growth leaves the message alone.
    charge-Undisturbed :
        (delta bps : ℕ) (b : Bank)
        → (b content_account.key).owner ≡ program_id
        → Holds
            (λ _ b'. Undisturbed content_account.key b b')
            (when
              (ltb 0 delta)
              (ensure_shard_initialized R program_id payer shard system_program seeds bump
                >> collect_base_fee R delta bps payer shard)
              b)
    charge-Undisturbed delta bps b owned =
        let k = content_account.key in
        Holds-if (ltb 0 delta) _ _ b
          (λ t.
            Holds-bind _ _ b
              (ensure_shard_initialized-Undisturbed L program_id payer shard system_program seeds
                bump k b rent_ok (λ q. ours (sym owned ∙ q)))
              λ _ b1 p.
                Holds-mono (collect_base_fee-SameData L delta bps payer shard b1)
                  λ _ b2 s. held (Undisturbed-trans k b b1 b2 p (SameData-Undisturbed k b1 b2 s)))
          (λ t. Holds-pure tt b (record { bytes = refl; owner = refl }))

pub resize_effect :
    {R : Runtime} (L : IsRuntime R) (target : AccountInfo) (n : ℕ) (b b' : Bank)
    → R.resize target n b ≡ ok b'
    → ((b' target.key).owner ≡ (b target.key).owner) × (length (b' target.key).bytes ≡ n)
resize_effect L target n b b' e =
    rw (L.resize_ok target n b b' e, ==_refl target.key)
      (refl, length-resized (b target.key).bytes n)

or_panic-some : {A : Type 0} (x : Option A) (b : Bank) {a : A} → or_panic x b ≡ ok a → x ≡ some a
or_panic-some none b e = ground arith
or_panic-some (some x) b e = ground arith

module _ {R : Runtime} (L : IsRuntime R) (program_id : Pubkey)
    (payer content_account thread_account settings_account treasury_shard
      author_fee_shard : AccountInfo)
    (system_program_account : AccountInfo) (rest : List AccountInfo) (chunk : Bytes)
    (treasury_shard_idx author_fee_shard_idx : ℕ) {rent : ℕ → ℕ} (now : ℤ) (b : Bank)
    (bytes_of : All (Fits 1) chunk) (rent_ok : R.rent ≡ ok rent)
    (now_ok : R.unix_timestamp ≡ ok now) (ours : program_id ≢ R.system_id) where
  append_holds :
      Holds
        (λ _ b'. Appended R program_id payer content_account now chunk b b')
        (process_append_content R program_id
          (payer ∷ content_account ∷ thread_account ∷ settings_account ∷ treasury_shard
            ∷ author_fee_shard ∷ system_program_account ∷ rest)
          chunk
          treasury_shard_idx
          author_fee_shard_idx
          b)
  unfolding process_append_content
  append_holds =
      let k = content_account.key in
      Holds-next _ _ _ b (
        Holds-next _ _ _ b (
          Holds-next _ _ _ b (
            Holds-next _ _ _ b (
              Holds-next _ _ _ b (
                Holds-next _ _ _ b (
                  Holds-next _ _ _ b (
                    Holds-check _ _ b λ _ signed. Holds-check _ _ b λ _ _.
                      Holds-check _ _ b λ _ owned. Holds-check _ _ b λ _ _.
                        Holds-check _ _ b λ thread _. Holds-check _ _ b λ settings _.
                          Holds-check _ _ b λ bumps _. Holds-check _ _ b λ old loaded.
                            Holds-fail_if _ _ _ b λ _. Holds-fail_if _ _ _ b λ by_author.
                              Holds-lift _ _ b now_ok (
                                Holds-check _ _ b λ age aged. Holds-fail_if _ _ _ b λ in_time.
                                  Holds-fail_if _ _ _ b λ short.
                                    Holds-bind _ _ b
                                      (Holds-run
                                        (R.resize content_account
                                          (content_node_size (length (old.body ++ chunk))))
                                        b)
                                      λ _ b1 e1. Holds-lift _ _ b1 rent_ok (
                                        Holds-gets _ _ b1 (
                                          Holds-bind _ _ b1
                                            (top_up-ToppedUp L payer content_account _ b1)
                                            λ _ b2 up.
                                              let (o1, size) =
                                                resize_effect L content_account
                                                  (content_node_size (length (old.body ++ chunk))) b
                                                  b1 e1 in
                                              let o2 =
                                                up.owner k
                                                ∙ o1
                                                ∙ assert_owned_by_ok content_account b program_id
                                                    owned in
                                              Holds-bind _ _ b2
                                                (charge-Undisturbed L program_id content_account
                                                  chunk bytes_of payer treasury_shard
                                                  system_program_account
                                                  (treasury_shard_seed
                                                    ∷ to_le_bytes 2 treasury_shard_idx
                                                    ∷ [])
                                                  bumps.0 rent_ok ours _ settings.base_fee_bps b2
                                                  o2)
                                                λ _ b3 u.
                                                  Holds-mono
                                                    (store-longer L program_id content_account chunk
                                                      bytes_of old b b3 loaded (ground arith)
                                                      (u.owner ∙ o2)
                                                      (ap length (u.bytes ∙ up.bytes k) ∙ size))
                                                    λ _ b' stored. held (record {
                                                      old = old;
                                                      age = age;
                                                      signed = assert_signer_ok payer b signed;
                                                      loaded = loaded;
                                                      by_author = ground arith;
                                                      aged = or_panic-some _ b aged;
                                                      in_time = ground arith;
                                                      short = ground arith;
                                                      stored = stored;
                                                    })))))))))))

  -- The chunk consists of bytes, the rent and the clock are known, and the program is not the system
  -- program. An append that succeeds was signed by the author of the message, came within 120 seconds of
  -- its creation, kept the body within the limit, and left the account with the same message whose body
  -- is the old body followed by the chunk.
  pub process_append_content-Appended :
      (b' : Bank)
      → process_append_content R program_id
          (payer ∷ content_account ∷ thread_account ∷ settings_account ∷ treasury_shard
            ∷ author_fee_shard ∷ system_program_account ∷ rest)
          chunk
          treasury_shard_idx
          author_fee_shard_idx
          b
        ≡ ok (tt, b')
      → Appended R program_id payer content_account now chunk b b'
  process_append_content-Appended b' = at_ok append_holds

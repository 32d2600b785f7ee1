-- ===== src/State/Access/Gate.antt =====
-- The gate and an entry of the list are two accounts, and each is read as before after a change of
-- the other.
use mathlib.Core.Path.{subst}
use txtcel_program.Borsh.{deserialize}
use txtcel_program.State.Codecs.RoundTrip.{ThreadAccessInRange}
use txtcel_program.Base.{ℕ, ◌≡◌, ◌≢◌, sym, ◌∙◌, ap, Option, some, arith}
use txtcel_program.Error.{ok}
use txtcel_program.Runtime.{Pubkey, Account, Bank, AccountInfo, Runtime}
use txtcel_program.Runtime.Laws.{IsRuntime}
use txtcel_program.Runtime.Storage.{deserialize-some}
use txtcel_program.State.Accounts.{ThreadAccess, AccessEntry}
use txtcel_program.State.Codecs.{thread_access_codec, access_entry_codec}
use txtcel_program.State.Codecs.Canonical.{thread_access_codec-Canonical}
use txtcel_program.State.Codecs.Tags.{
  HasTag-unique, thread_access_codec-tag, access_entry_codec-tag,
}
use txtcel_program.State.Asserts.{is_uninitialized}
use txtcel_program.State.AccountUtils.Effects.{Frame}
use txtcel_program.State.Loaders.{load_thread_access, load_bound_access_entry}
use txtcel_program.State.Loaders.Facts.{load_thread_access_iff, load_bound_access_entry_iff}
use txtcel_program.State.Access.Entry.{HasStatus, absent, present}

module _ {R : Runtime} (L : IsRuntime R) (program_id : Pubkey)
    (ours : program_id ≢ R.system_id) where
  pub gate_in_range :
      (account : AccountInfo) (a : ThreadAccess) (b : Bank)
      → load_thread_access R account b ≡ ok a
      → ThreadAccessInRange a
  gate_in_range account a b loaded =
      let (decoded, _) = (load_thread_access_iff R program_id account b a).0 loaded in
      let (_, _, range) =
        deserialize-some (thread_access_codec R.borsh) (thread_access_codec-Canonical L.is_borsh)
          (b account.key).bytes a decoded in
      range

  -- The gate and the entry are two accounts.
  pub gate-not-entry :
      (access_account entry_account : AccountInfo) (thread wallet : Pubkey) (a : ThreadAccess)
      (prev : Option ℕ) (b : Bank)
      → (b access_account.key).owner ≡ program_id
      → load_thread_access R access_account b ≡ ok a
      → HasStatus R program_id entry_account thread wallet b prev
      → access_account.key ≢ entry_account.key
  unfolding is_uninitialized
  gate-not-entry access_account entry_account thread wallet a prev b owned loaded (absent fresh)
        same =
      ours (ground arith)
  gate-not-entry access_account entry_account thread wallet a prev b owned loaded
        (present e used entry) same =
      let (decoded, tagged) = (load_thread_access_iff R program_id access_account b a).0 loaded in
      let (_, decoded', tagged', _, _) =
        (load_bound_access_entry_iff R program_id entry_account b thread wallet e).0 entry in
      let bytes = (b access_account.key).bytes in
      let there : deserialize (access_entry_codec R.borsh) bytes ≡ some e =
        subst (λ k. deserialize (access_entry_codec R.borsh) (b k).bytes ≡ some e) (sym same)
          decoded' in
      let tags : a.tag ≡ e.tag =
        HasTag-unique R.borsh bytes a.tag e.tag (thread_access_codec-tag L.is_borsh bytes a decoded)
          (access_entry_codec-tag L.is_borsh bytes e there) in
      omega arith

  pub entry-kept :
      (account : AccountInfo) (thread wallet : Pubkey) (e : AccessEntry) (b b' : Bank)
      → b' account.key ≡ b account.key
      → load_bound_access_entry R program_id account thread wallet b ≡ ok e
      → load_bound_access_entry R program_id account thread wallet b' ≡ ok e
  entry-kept account thread wallet e b b' same loaded =
      let (owned, decoded, tagged, of_thread, of_wallet) =
        (load_bound_access_entry_iff R program_id account b thread wallet e).0 loaded in
      (load_bound_access_entry_iff R program_id account b' thread wallet e).1 (
        ap (λ (t : Account). t.owner) same ∙ owned,
        ap (λ (t : Account). deserialize (access_entry_codec R.borsh) t.bytes) same ∙ decoded,
        tagged,
        of_thread,
        of_wallet,
      )

  pub gate-Frame :
      (access_account : AccountInfo) (target : Pubkey) (a : ThreadAccess) (b b' : Bank)
      → access_account.key ≢ target
      → Frame target b b'
      → load_thread_access R access_account b ≡ ok a
      → load_thread_access R access_account b' ≡ ok a
  gate-Frame access_account target a b b' ne f loaded =
      let (decoded, tagged) = (load_thread_access_iff R program_id access_account b a).0 loaded in
      (load_thread_access_iff R program_id access_account b' a).1 (
        ap (deserialize (thread_access_codec R.borsh)) (f.bytes access_account.key ne) ∙ decoded,
        tagged,
      )

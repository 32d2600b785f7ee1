-- ===== src/System/Reached.antt =====
-- What an instruction can rely on when it reads an account, in every bank that the program reaches
-- (the loaders of src/state/loaders.rs and `load_content` of src/content/mod.rs).
use txtcel_program.Base.{ℕ, ◌≤◌, ◌<◌, ◌≡◌, ◌≢◌, length, u64_mod}
use txtcel_program.Error.{ok}
use txtcel_program.Runtime.{Pubkey, Bank, AccountInfo, Runtime}
use txtcel_program.Runtime.Laws.{IsRuntime}
use txtcel_program.State.Constants.{
  max_fee_cut_bps, max_body_len, max_follows, content_slots, access_fee_exempt,
}
use txtcel_program.State.Accounts.{ProgramSettings, AccessEntry, FollowRegistry}
use txtcel_program.State.Asserts.{assert_owned_by}
use txtcel_program.State.Asserts.Facts.{assert_owned_by_ok}
use txtcel_program.State.Loaders.{load_settings, load_bound_access_entry, load_follow_registry}
use txtcel_program.State.Loaders.Facts.{
  load_settings_iff, load_bound_access_entry_iff, load_follow_registry_iff,
}
use txtcel_program.State.Fees.{compute_fee_split}
use txtcel_program.State.Fees.Split.{compute_fee_split-author_half}
use txtcel_program.Content.{load_content}
use txtcel_program.Content.Facts.{load_content_iff}
use txtcel_program.Content.Node.{ContentNode}
use txtcel_program.Processor.Follow.Channels.{occurrences}
use txtcel_program.System.Reach.{Reach, Reach-SoundBank}

-- Of what is split at this cut, the author is paid at least as much as the treasury.
abbrev pub PaysAuthorFirst : ℕ → ℕ → Type 0
PaysAuthorFirst amount cut_bps =
    let (author, platform) = compute_fee_split amount cut_bps in platform ≤ author

module _ {R : Runtime} (L : IsRuntime R) (program_id : Pubkey) (ours : program_id ≢ R.system_id)
    {b : Bank} (reached : Reach R program_id b) (account : AccountInfo) where
  -- In every reachable bank, the settings that an instruction loads have all four cuts at no more than
  -- half, and of any `u64` amount that is split at their author, entry or like cut the author is paid at
  -- least as much as the treasury.
  pub Reach-load_settings :
      (s : ProgramSettings) (amount : ℕ)
      → load_settings R program_id account b ≡ ok s
      → amount < u64_mod
      → (s.base_fee_bps ≤ max_fee_cut_bps)
        × (s.author_fee_cut_bps ≤ max_fee_cut_bps)
        × (s.entry_cut_bps ≤ max_fee_cut_bps)
        × (s.like_cut_bps ≤ max_fee_cut_bps)
        × PaysAuthorFirst amount s.author_fee_cut_bps
        × PaysAuthorFirst amount s.entry_cut_bps
        × PaysAuthorFirst amount s.like_cut_bps
  Reach-load_settings s amount e fits =
      let (_, owned, decoded, tagged) = (load_settings_iff R program_id account b s).0 e in
      let sound = Reach-SoundBank L program_id ours reached account.key (λ t. t) owned in
      let capped = sound.settings s decoded tagged in
      (
        capped.base,
        capped.author,
        capped.entry,
        capped.like,
        compute_fee_split-author_half amount s.author_fee_cut_bps fits capped.author,
        compute_fee_split-author_half amount s.entry_cut_bps fits capped.entry,
        compute_fee_split-author_half amount s.like_cut_bps fits capped.like,
      )

  -- In every reachable bank, a message that an instruction loads stands in one of the slots of its
  -- node, and its body is within the limit, however often it has been appended to.
  pub Reach-load_content :
      (c : ContentNode)
      → load_content R program_id account b ≡ ok c
      → (c.header.slot < content_slots) × (length c.body ≤ max_body_len)
  Reach-load_content c e =
      let (owned, decoded, tagged, _) = (load_content_iff R program_id account b c).0 e in
      let sound = Reach-SoundBank L program_id ours reached account.key (λ t. t) owned in
      let placed = sound.content c decoded tagged in (placed.slot, placed.body)

  -- In every reachable bank, an access entry that an instruction loads has one of the three statuses.
  pub Reach-load_bound_access_entry :
      (thread wallet : Pubkey) (e : AccessEntry)
      → load_bound_access_entry R program_id account thread wallet b ≡ ok e
      → e.status ≤ access_fee_exempt
  Reach-load_bound_access_entry thread wallet x e =
      let (owned, decoded, tagged, _, _) =
        (load_bound_access_entry_iff R program_id account b thread wallet x).0 e in
      let sound = Reach-SoundBank L program_id ours reached account.key (λ t. t) owned in
      sound.entry x decoded tagged

  -- In every reachable bank, a registry of the program that an instruction loads follows no channel
  -- twice, and no more channels than the limit.
  pub Reach-load_follow_registry :
      (x : FollowRegistry) (channel : Pubkey)
      → assert_owned_by account program_id b ≡ ok tt
      → load_follow_registry R account b ≡ ok x
      → (occurrences channel x.channels ≤ 1) × (length x.channels ≤ max_follows)
  Reach-load_follow_registry x channel ours' e =
      let (decoded, tagged) = (load_follow_registry_iff R program_id account b x).0 e in
      let owned = assert_owned_by_ok account b program_id ours' in
      let sound = Reach-SoundBank L program_id ours reached account.key (λ t. t) owned in
      let distinct = sound.registry x decoded tagged in (distinct.once channel, distinct.bounded)

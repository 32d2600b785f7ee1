-- ===== src/Tests/Scene.antt =====
-- A platform with one thread: the accounts that the concrete runs start from.
use txtcel_program.Base.{ℕ, ◌==◌, if◌then◌else◌, true, false, List, [], ◌∷◌}
use txtcel_program.Error.{Result, ok, err}
use txtcel_program.Borsh.{Bytes}
use txtcel_program.Runtime.{Pubkey, Account, Bank, AccountInfo}
use txtcel_program.State.Constants.{
  tag_settings, tag_thread, tag_alloc, tag_access, tag_access_entry, access_denied,
}
use txtcel_program.State.Codecs.{
  program_settings_codec, thread_node_codec, alloc_node_codec, thread_access_codec,
  access_entry_codec,
}
use txtcel_program.State.Pda.{
  derive_settings_pda, derive_alloc_pda, derive_access_pda, derive_access_entry_pda,
}
use txtcel_program.State.Accounts.{
  ProgramSettings, ThreadNode, AllocNode, ThreadAccess, AccessEntry,
}
use txtcel_program.Tests.World.{world}

abbrev pub program : Pubkey
program = 1000

abbrev pub admin : Pubkey
admin = 70

abbrev pub author : Pubkey
author = 50

abbrev pub reader : Pubkey
reader = 60

abbrev pub thread_key : Pubkey
thread_key = 500

abbrev pub settings_key : Pubkey
settings_key = (derive_settings_pda world program).0

abbrev pub alloc_key : ℕ → Pubkey
alloc_key seq = (derive_alloc_pda world program thread_key seq).0

abbrev pub gate_key : Pubkey
gate_key = (derive_access_pda world program thread_key).0

abbrev pub entry_key : Pubkey → Pubkey
entry_key wallet = (derive_access_entry_pda world program thread_key wallet).0

abbrev pub signer : Pubkey → AccountInfo
signer key = record { key = key; is_signer = true; is_writable = true }

abbrev pub writable : Pubkey → AccountInfo
writable key = record { key = key; is_signer = false; is_writable = true }

abbrev pub settings : ProgramSettings
settings = record {
  tag = tag_settings;
  admin = admin;
  treasury = 80;
  base_fee_bps = 1000;
  author_fee_cut_bps = 1000;
  entry_cut_bps = 1000;
  like_cut_bps = 1000;
}

abbrev pub thread : ThreadNode
thread = record {
  tag = tag_thread;
  alloc_count = 1;
  last_alloc_seq = 0;
  author = author;
  message_fee = 5000;
  like_fee = 700;
  title = 104 ∷ 105 ∷ [];
}

abbrev pub alloc : AllocNode
alloc = record { tag = tag_alloc; thread = thread_key; alloc_seq = 0 }

abbrev pub gate : ThreadAccess
gate = record {
  tag = tag_access;
  thread = thread_key;
  enabled = true;
  admin = author;
  entry_fee = 0;
  whitelist_count = 3;
}

abbrev pub denied : AccessEntry
denied = record {
  tag = tag_access_entry;
  thread = thread_key;
  wallet = reader;
  status = access_denied;
}

abbrev pub wallet : ℕ → Account
wallet lamports = record { lamports = lamports; owner = 0; bytes = [] }

abbrev pub stored : Bytes → Account
stored bytes = record { lamports = 10000000; owner = program; bytes = bytes }

abbrev pub held : Pubkey → List (Pubkey × Account) → Account
held key [] = wallet 0
held key ((k, account) ∷ rest) = if k == key then account else held key rest

abbrev pub scene : Bank
scene key = held key (
    (admin, wallet 1000000000)
    ∷ (author, wallet 1000000000)
    ∷ (reader, wallet 1000000000)
    ∷ (settings_key, stored ((program_settings_codec world.borsh).put settings []))
    ∷ (thread_key, stored ((thread_node_codec world.borsh).put thread []))
    ∷ (alloc_key 0, stored ((alloc_node_codec world.borsh).put alloc []))
    ∷ (gate_key, stored ((thread_access_codec world.borsh).put gate []))
    ∷ (entry_key reader, stored ((access_entry_codec world.borsh).put denied []))
    ∷ [])

-- The accounts after a run.
abbrev pub bank_of : {A : Type 0} → Result (A × Bank) → Bank
bank_of (ok (a, b)) = b
bank_of (err e) = λ key. wallet 0

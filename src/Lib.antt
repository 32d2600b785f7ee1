-- ===== src/Lib.antt =====
-- Txtcel: a Solana program for threads of messages. The development models the program's Rust code
-- (src/ of the repository) and proves what its instructions do to the accounts.
--
-- The program has one entrypoint. It decodes an instruction, and the handler of the instruction walks
-- the list of accounts, checks them, and changes them by writing their data, by moving lamports, and by
-- calls of the System Program. A thread has a chain of allocation nodes; each node has 32 slots; a
-- message is an account at the address of its slot. A thread may have a gate with an access list (one
-- account for each wallet) and a counter of allowed wallets; posts and likes pay fees into sharded
-- accounts that the treasury and the author sweep; follows are a registry for each user and sharded
-- counters for each thread.
--
-- Which file models which part:
--   Base            native numbers, bytes, signed integers, lists, the machine arithmetic
--   Error           src/error.rs
--   Borsh           the Borsh library's interface; its laws are in Borsh.Laws
--   Runtime         accounts, the Solana runtime's interface, and the two monads: Check reads the
--                   accounts and may fail, Tx also changes them; laws in Runtime.Laws, proof rules
--                   in Runtime.Hoare and Runtime.Storage, and Runtime.Views for a view with a default
--   State           src/state: Constants, Accounts (structures and sizes), Codecs (the derived
--                   encodings), Pda, Asserts, Loaders, AccountUtils, Fees, and Access for the
--                   access-list half of src/state/loaders.rs
--   Content         src/content: Node for the envelope, Body for kinds and bodies, Typed for both
--   Instruction     src/instruction.rs, Entrypoint src/lib.rs
--   Processor       src/processor, one module for each group of handlers: Settings, ThreadFees,
--                   AccessLists, ThreadAccess, Alloc, FillSlot, AppendContent, CloseAccount,
--                   LikeContent, Follow, Sweep
--   System          the program as a transition system: Sound says what the accounts hold, Writes,
--                   Frames and Keeps that a write and each helper keep it, Handlers that each instruction does,
--                   Reach is the relation of the banks that are reached, by `process_instruction` of
--                   src/lib.rs with any bytes and accounts, and Reached what the loaders of
--                   src/state/loaders.rs can rely on there; Following is the abstract view of follows
--   Tests           an implementation of Borsh's primitives and of a runtime that meets the laws, and
--                   the theorems at concrete accounts
--
-- A handler has the name it has in the source and follows it statement by statement. The state is the
-- bank, a function from addresses to accounts, so two entries of the account list with one address are
-- one account. `accounts.iter()` is the list of the entries that are left; a failed instruction has no
-- bank, since the runtime rolls it back. A struct is a record, its `size` helper `<name>_size`, its
-- derived encoding `<name>_codec`. `unwrap`-like aborts are the error `panicked`.
--
-- A bank is reachable when it comes from one in which the program owns nothing by instructions and by
-- the steps of others. An instruction has any bytes and any accounts, and the sysvars of its time; a step
-- of others leaves the data of the program's accounts, and may give it accounts of zeros.
--
-- Integers are natural numbers with the wrap-around, the saturation or the check of the source written
-- out; `i64` is an integer with its range checked. Keys are numbers below 2^256. All loops are over
-- lists and are structural, so no fuel is used.
--
-- What is a parameter: the primitive Borsh encodings, `find_program_address`, the rent and clock
-- sysvars, the System Program's `transfer`, `create_account`, `allocate` and `assign`, and
-- `AccountInfo::resize`. The laws taken of them are their documented effects where they succeed; they
-- say nothing of when they succeed. Nothing is assumed of the hash behind the addresses.
--
-- Not modelled: compute limits, the runtime's own checks at the end of an instruction (that
-- lamports balance, and that read-only accounts are unchanged), logging, and the tests.
pub mod Base
pub mod Error
pub mod Borsh
pub mod Runtime
pub mod State
pub mod Content
pub mod Processor
pub mod Instruction
pub mod Entrypoint
pub mod System
pub mod Tests

-- ===== src/Lib.antt =====
-- Verification of the Stellar Stream Hive contracts.
--
-- The program is a set of Soroban contracts in Rust. The stream contract (contracts/stream/src)
-- lets a sender lock tokens that a recipient earns linearly from ledger to ledger. The vault
-- (contracts/vault/src) holds the tokens of all streams and pays them out only for the stream
-- contract, which calls it by address and function name (contracts/stream/src/vault_client.rs). The
-- vault in turn calls the token contracts. The registry (contracts/registry/src) is an index of
-- streams with running statistics, which anybody may write and which the other two do not call.
--
-- How the files correspond to the code:
--   * Base, Base/Int, Base/Dict, Base/Division, Base/Lists, Base/Pages, Base/Loops: numbers, the
--     checked arithmetic of i128, association lists for storage maps, the loop of the paginated
--     queries, and lemmas on them.
--   * Host: addresses, the environment of a call (ledger sequence, current contract, who has
--     authorized the call) and the monad of an entry point, whose outcome is a value with a new
--     state, a contract error or a trap. `commit` is the host's rollback: a call that fails leaves
--     the state as it was. Host/Results is the same without a state, for math.rs. Host/Token and
--     Host/Invoke are the token contracts and the calls of other contracts, which are parameters:
--     of a token contract it is assumed that a transfer that succeeds moves the amount, and that
--     nothing but the vault's own transfers lowers the vault's balances.
--     Host/Lifetime is how long the ledger keeps the entries of a storage: `extend_ttl` is a
--     parameter too, with its documented laws.
--   * Vault/Types, Vault/Storage, Vault/Contract: contracts/vault/src/error.rs, events.rs,
--     storage.rs and lib.rs, one function for each function of the source. Vault/Effects states
--     what a success has done; Vault/Accounting and Vault/Invariant are about the sums of balances;
--     Vault/Steps is the ledger's view of a vault; Vault/Custody, Vault/Access and Vault/Payout
--     hold the theorems. Vault/Book is an abstract vault, one account for each stream, which
--     Vault/Simulation and Vault/Refinement compare with the code; Vault/Log reads the balances off
--     the events. Vault/Lifetimes has the extensions that storage.rs asks for, beside the state of
--     the contract; Vault/Lasting and Vault/Expiry are about how long the entries live.
--   * Stream/Types, Stream/Storage, Stream/Math, Stream/VaultClient, Stream/Contract: types.rs,
--     error.rs, events.rs, storage.rs, math.rs, vault_client.rs and lib.rs of contracts/stream/src.
--     Stream/Accrual and Stream/Withdrawable are about the arithmetic; Stream/Effects and
--     Stream/CancelEffect state what a success has done, Stream/VaultLaws what the contract relies
--     on of a vault; Stream/Solvency, Stream/CancelSolvency, Stream/Steps and Stream/Reach are
--     about the states that can be reached, Stream/Entitled, Stream/Available and Stream/Drain
--     about withdrawals, Stream/Creatable and Stream/Cancellable about the other two,
--     Stream/Conservation about what the vault holds beyond what is due. Stream/Diagram,
--     Stream/Lifecycle and Stream/History follow one stream over many calls; Stream/Access and
--     Stream/Configuration are about who can change what, Stream/Pausing about the pause flag,
--     Stream/Log about the events, Stream/Overflow about deposits that are too large for the
--     accrual, Stream/Numbering about the counter of ids, Stream/Verdict about the guards that
--     refuse a payment. Stream/Queries has the read-only entry points of lib.rs; Stream/Index,
--     Stream/Listing and Stream/Pages are about the lists that they return. Stream/Lifetimes,
--     Stream/Unchanged, Stream/Lasting and Stream/Expiry are about the lifetimes of the entries, as
--     in the vault.
--   * Registry/Types, Registry/Storage, Registry/Contract: types.rs, error.rs, events.rs, storage.rs
--     and lib.rs of contracts/registry/src. Registry/Totals has the sums over the records,
--     Registry/Effects what a success has done, Registry/Steps the ledger's view; Registry/Index,
--     Registry/Statistics, Registry/Active, Registry/Records, Registry/Available, Registry/Late,
--     Registry/Drift and Registry/Lasting hold the theorems, the last with Registry/Lifetimes.
--   * System: both contracts together. System/Deployment shows that a deployed vault is what the
--     stream contract relies on, System/Steps is the ledger's view of both, with direct calls of
--     the vault by anybody else; System/Strangers, System/Payments, System/Solvency,
--     System/Conservation, System/Available, System/Creating, System/Cancelling, System/Flow,
--     System/Transfers, System/Backing, System/Settling, System/Outcomes, System/Widths and
--     System/Blocked build on it. Paging is about the loops of the pages of both the stream contract
--     and the registry.
--   * Fixtures and the modules called Tests: a concrete token contract and host, and runs of the
--     code on concrete inputs.
--
-- The numbers u32 and u64 are natural numbers. The code compares and subtracts them, and adds 1 to
-- the last stream id and to the registry's stream count, where the model traps at the bound as the
-- build's overflow checks do; the counters of the registry's statistics are checked additions. The
-- numbers i128 are integers: every addition, subtraction, multiplication and division of them in
-- the code is a checked one, and the model's checked operations fail outside the range of i128.
-- Loops are structural recursions over the rounds that they have left; Paging has the loops of the
-- pages as they are written as well, on fuel, where 51 tests are enough since a page has at most 50
-- elements. An amount is taken as any integer, but for the deposit of `create_stream`, which is at
-- most the largest i128.
--
-- Addresses are numbers, since the code only compares them. Whether an address has authorized a
-- call is part of its environment; the contract that calls another one is authorized there by
-- itself, which System/Deployment assumes of the host. The host rejects a second `require_auth` of
-- the same address in one invocation, as contracts/stream/src/lib.rs says; only `transfer_admin` can
-- ask for one. The host refuses that a contract be entered again while it runs, so a call of another
-- contract changes only the state outside.
--
-- The states of both contracts together (System/Steps) are those that calls can reach under these
-- conditions: the stream contract is set up with this vault, and its deposits are i128 numbers; the
-- vault's admin never names another contract than this one as the stream contract, so calls of
-- `set_stream_contract` with another address are left out, after which that contract could pay out
-- what the streams are owed; direct calls of the vault come from others than the two contracts; the
-- vault itself authorizes nothing; and what happens to the tokens outside lowers none of the vault's
-- balances.
--
-- The lifetimes of storage entries stand beside the states: a call that fails changes none, and one
-- that goes through asks the host for the extensions that its writes ask for. An archived entry is
-- restored by the host before a call can read it, so no call depends on them.
--
-- Not modelled: the restoring of archived entries, the limits on resources and fees, the tests,
-- scripts and deployment records.
pub mod Base
pub mod Host
pub mod Paging
pub mod Vault
pub mod Stream
pub mod System
pub mod Registry
pub mod Fixtures

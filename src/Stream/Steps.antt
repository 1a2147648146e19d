-- ===== src/Stream/Steps.antt =====
-- The stream contract as the ledger runs it: anybody may call any entry point, a call that fails
-- leaves the state alone, time goes on, and the ledger outside also changes by itself.
use stellar_stream_hive_cont.Base.{ℕ, ◌≤◌, ◌≡◌, Bool}
use stellar_stream_hive_cont.Base.Int.{ℤ, pos, ◌≤ℤ◌, i128_max}
use stellar_stream_hive_cont.Host.{Env, Address, ◌>>=◌, pure, commit}
use stellar_stream_hive_cont.Host.Invoke.{Invoker}
use stellar_stream_hive_cont.Stream.Storage.{World, deployed}
use stellar_stream_hive_cont.Stream.Contract
use stellar_stream_hive_cont.Stream.Contract.{StreamAction}
use stellar_stream_hive_cont.Stream.VaultLaws.{IsVault, KeepsTokens}

-- The entry points that change the state, with their arguments.
pub data Call : Type 0 where
  initialize : Address → Address → Call
  pause unpause : Call
  transfer_admin : Address → Call
  create_stream : Address → Address → Address → ℤ → ℕ → ℕ → ℕ → Bool → Call
  withdraw : Address → ℕ → ℤ → Call
  withdraw_max : Address → ℕ → Call
  cancel_stream : Address → ℕ → Call

module _ {W : Type 0} where
  abbrev pub discard : {A : Type 0} → StreamAction W A → StreamAction W (Unit {0})
  discard m = m >>= λ _. pure tt

module _ {W : Type 0} (host : Invoker W) where
  unfoldable pub invoke : Env → Call → StreamAction W (Unit {0})
  invoke env (Call.initialize admin vault) = Contract.initialize env admin vault
  invoke env Call.pause = Contract.pause env
  invoke env Call.unpause = Contract.unpause env
  invoke env (Call.transfer_admin new_admin) = Contract.transfer_admin env new_admin
  invoke env (Call.create_stream sender recipient token total start end cliff cancellable) =
      discard
        (Contract.create_stream host env sender recipient token total start end cliff cancellable)
  invoke env (Call.withdraw recipient id amount) = Contract.withdraw host env recipient id amount
  invoke env (Call.withdraw_max recipient id) =
      discard (Contract.withdraw_max host env recipient id)
  invoke env (Call.cancel_stream sender id) = Contract.cancel_stream host env sender id

-- The calls that are considered: the deposit is an i128, and the contract is set up with the vault
-- that `vault` names.
abbrev pub IsAdmissible : Address → Call → Type 0
IsAdmissible vault (Call.initialize admin v) = v ≡ vault
IsAdmissible vault (Call.create_stream sender recipient token total start end cliff cancellable) =
    total ≤ℤ pos i128_max
IsAdmissible vault _ = Unit {0}

module _ {W : Type 0} (host : Invoker W) (vault : Address) (laws : IsVault host vault) where
  -- From one ledger to a later one. What happens outside lowers no balance of the vault, from which
  -- only this contract may take, and changes no stream's token.
  pub data Step (now : ℕ) (w : World W) : ℕ → World W → Type 0 where
    call :
        (env : Env) (c : Call) (later : ℕ)
        → env.sequence ≡ later
        → now ≤ later
        → IsAdmissible vault c
        → Step now w later (commit w (invoke host env c w))
    elsewhere :
        (o : W) (later : ℕ)
        → now ≤ later
        → ((id : ℕ) → laws.balance id w.outside ≤ℤ laws.balance id o)
        → KeepsTokens laws.token_of w.outside o
        → Step now w later (record w { outside = o })

  -- What a contract that was deployed beside the ledger `o` can become.
  pub data Reachable (o : W) : ℕ → World W → Type 0 where
    start : (now : ℕ) → Reachable o now (deployed o)
    next : {n m : ℕ} {v w : World W} → Reachable o n v → Step n v m w → Reachable o m w

-- What a contract that was deployed beside the ledger `o` can become, whatever happens outside.
pub data Ran {W : Type 0} (host : Invoker W) (o : W) : World W → Type 0 where
  start : Ran host o (deployed o)
  call :
      {w : World W}
      → Ran host o w
      → (env : Env) (c : Call) → Ran host o (commit w (invoke host env c w))
  elsewhere : {w : World W} → Ran host o w → (o' : W) → Ran host o (record w { outside = o' })

-- What the state `w` of the ledger `now` becomes, by calls at ledgers that never go back and by
-- whatever happens outside.
pub data Runs {W : Type 0} (host : Invoker W) (now : ℕ) (w : World W) : ℕ → World W → Type 0 where
  stay : Runs host now w now w
  call :
      {m : ℕ} {v : World W}
      → Runs host now w m v
      → (env : Env) (c : Call) (later : ℕ) → env.sequence ≡ later
      → m ≤ later
      → Runs host now w later (commit v (invoke host env c v))
  elsewhere :
      {m : ℕ} {v : World W}
      → Runs host now w m v
      → (o : W) (later : ℕ) → m ≤ later
      → Runs host now w later (record v { outside = o })

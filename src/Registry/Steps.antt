-- ===== src/Registry/Steps.antt =====
-- The registry as the ledger runs it: anybody may call any entry point, and a call that fails leaves
-- the state alone.
use stellar_stream_hive_cont.Base.{ℕ, ◌≡◌, true}
use stellar_stream_hive_cont.Base.Int.{ℤ}
use stellar_stream_hive_cont.Host.{Env, Address, commit}
use stellar_stream_hive_cont.Registry.Types.{StreamStatus}
use stellar_stream_hive_cont.Registry.Storage.{World, deployed}
use stellar_stream_hive_cont.Registry.Contract
use stellar_stream_hive_cont.Registry.Contract.{RegistryAction}

-- The entry points that change the state, with their arguments.
pub data Call : Type 0 where
  initialize : Address → Call
  register_stream : ℕ → Address → Address → Address → ℤ → Call
  update_stream : ℕ → ℤ → StreamStatus → Call

unfoldable pub invoke : Env → Call → RegistryAction (Unit {0})
invoke env (Call.initialize admin) = Contract.initialize env admin
invoke env (Call.register_stream id sender recipient token amount) =
    Contract.register_stream env id sender recipient token amount
invoke env (Call.update_stream id withdrawn status) = Contract.update_stream env id withdrawn status

-- What a registry that has just been deployed can become.
pub data Reachable : World → Type 0 where
  start : Reachable deployed
  next : {w : World} → Reachable w → (env : Env) (c : Call) → Reachable (commit w (invoke env c w))

-- What a registry can become whose first call is its setup by `admin`.
pub data Managed : World → Type 0 where
  set_up :
      (env : Env) (admin : Address)
      → env.authorizes admin ≡ true
      → Managed (commit deployed (invoke env (Call.initialize admin) deployed))
  next : {w : World} → Managed w → (env : Env) (c : Call) → Managed (commit w (invoke env c w))

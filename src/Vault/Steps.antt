-- ===== src/Vault/Steps.antt =====
-- The vault as the ledger runs it: any address may call any entry point, a call that fails leaves
-- the state alone, and the tokens also move outside the vault.
use stellar_stream_hive_cont.Base.{ℕ, ◌≡◌, false}
use stellar_stream_hive_cont.Base.Int.{ℤ, ◌≤ℤ◌}
use stellar_stream_hive_cont.Host.{Env, Address, commit}
use stellar_stream_hive_cont.Host.Token.{TokenClient}
use stellar_stream_hive_cont.Vault.Storage.{World, deployed}
use stellar_stream_hive_cont.Vault.Contract
use stellar_stream_hive_cont.Vault.Contract.{VaultAction}

-- The entry points that change the state, with their arguments.
pub data Call : Type 0 where
  initialize set_stream_contract : Address → Address → Call
  deposit : Address → Address → ℤ → ℕ → Call
  release refund : Address → Address → Address → ℤ → ℕ → Call

module _ {T : Type 0} (client : TokenClient T) where
  unfoldable pub invoke : Env → Call → VaultAction T (Unit {0})
  invoke env (Call.initialize admin contract) = Contract.initialize env admin contract
  invoke env (Call.set_stream_contract admin contract) =
      Contract.set_stream_contract env admin contract
  invoke env (Call.deposit from token amount id) = Contract.deposit client env from token amount id
  invoke env (Call.release caller to token amount id) =
      Contract.release client env caller to token amount id
  invoke env (Call.refund caller to token amount id) =
      Contract.refund client env caller to token amount id

  -- The vault, at the address `self`, makes no call in which it authorizes a payment of its own
  -- through `deposit`, so its address does not authorize there; and nobody else can take tokens
  -- out of its account.
  pub data Step (self : Address) (w : World T) : World T → Type 0 where
    call :
        (env : Env) (c : Call)
        → env.current_contract ≡ self
        → env.authorizes self ≡ false
        → Step self w (commit w (invoke env c w))
    elsewhere :
        (t : T)
        → ((token : Address) → client.balance token self w.tokens ≤ℤ client.balance token self t)
        → Step self w (record w { tokens = t })

  -- What a vault that was deployed with the tokens in state `t` can become.
  pub data Reachable (self : Address) (t : T) : World T → Type 0 where
    start : Reachable self t (deployed t)
    next : {v w : World T} → Reachable self t v → Step self v w → Reachable self t w

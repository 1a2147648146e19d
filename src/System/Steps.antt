-- ===== src/System/Steps.antt =====
-- The whole system as the ledger runs it: calls of the stream contract, direct calls of the vault by
-- anybody else, and movements of tokens outside both.
use stellar_stream_hive_cont.Base.{ℕ, ◌≤◌, ◌≡◌, false}
use stellar_stream_hive_cont.Base.Int.{◌≤ℤ◌}
use stellar_stream_hive_cont.Host.{Env, Address, commit}
use stellar_stream_hive_cont.Host.Invoke.{Invoker}
use stellar_stream_hive_cont.Host.Token.{TokenClient}
use stellar_stream_hive_cont.Vault.Storage
use stellar_stream_hive_cont.Vault.Steps
use stellar_stream_hive_cont.Stream.Storage.{World, deployed}
use stellar_stream_hive_cont.Stream.Steps.{Call, invoke, IsAdmissible}

-- The vault's admin trusts the stream contract at the address `self`, and no other.
abbrev pub Trusts : Address → Steps.Call → Type 0
Trusts self (Steps.initialize admin contract) = contract ≡ self
Trusts self (Steps.set_stream_contract admin contract) = contract ≡ self
Trusts self _ = Unit {0}

module _ {T : Type 0} (client : TokenClient T) (host : Invoker (Storage.World T))
    (self vault : Address) (callee : Env → Env) where
  -- From one ledger to a later one.
  pub data Step (now : ℕ) (w : World (Storage.World T)) : ℕ → World (Storage.World T) → Type 0 where
    -- A call of the stream contract, which is at the address `self`. The vault has not authorized
    -- anything in the calls that this makes.
    streams :
        (env : Env) (c : Call) (later : ℕ)
        → env.sequence ≡ later
        → now ≤ later
        → env.current_contract ≡ self
        → (callee env).authorizes vault ≡ false
        → IsAdmissible vault c
        → Step now w later (commit w (invoke host env c w))
    -- A call of the vault that does not come from the stream contract, and by which the vault's admin
    -- names no other contract in its place.
    vaults :
        (env : Env) (c : Steps.Call) (later : ℕ)
        → now ≤ later
        → env.current_contract ≡ vault
        → env.authorizes self ≡ false
        → env.authorizes vault ≡ false
        → Trusts self c
        → Step now w later
            (record w { outside = commit w.outside (Steps.invoke client env c w.outside) })
    -- Nobody else can take tokens out of the vault's account.
    tokens :
        (t : T) (later : ℕ)
        → now ≤ later
        → ((token : Address)
            → client.balance token vault w.outside.tokens ≤ℤ client.balance token vault t)
        → Step now w later (record w { outside = record w.outside { tokens = t } })

  -- What the two contracts can become, deployed with the tokens in the state `t`.
  pub data Reachable (t : T) : ℕ → World (Storage.World T) → Type 0 where
    start : (now : ℕ) → Reachable t now (deployed (Storage.deployed t))
    next :
        {n m : ℕ} {v w : World (Storage.World T)} → Reachable t n v → Step n v m w → Reachable t m w

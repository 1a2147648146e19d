-- ===== src/System/Payments.antt =====
-- The calls of the stream contract keep the vault a custodian.
use stellar_stream_hive_cont.Base.{ℕ, ◌≡◌, inl, inr, false, some, arith}
use stellar_stream_hive_cont.Base.Int.{ℤ}
use stellar_stream_hive_cont.Host.{Env, Address, ok}
use stellar_stream_hive_cont.Host.Invoke.{Invoker}
use stellar_stream_hive_cont.Host.Token.{TokenClient, IsToken}
use stellar_stream_hive_cont.Vault.Types.{PayoutKind}
use stellar_stream_hive_cont.Vault.Storage
use stellar_stream_hive_cont.Vault.Contract
use stellar_stream_hive_cont.Vault.Custody.{deposit-IsCustodian, payout-IsCustodian}
use stellar_stream_hive_cont.Vault.Effects.{deposit_ok, authorize_and_pay_ok}
use stellar_stream_hive_cont.Stream.Storage.{World}
use stellar_stream_hive_cont.Stream.Steps.{Call, invoke}
use stellar_stream_hive_cont.Stream.Contract.{
  initialize, pause, unpause, transfer_admin, create_stream, withdraw, withdraw_max,
}
use stellar_stream_hive_cont.Stream.Effects.{create_stream_ok, withdraw_ok}
use stellar_stream_hive_cont.Stream.CancelEffect.{cancel_stream_ok}
use stellar_stream_hive_cont.Stream.VaultClient
use stellar_stream_hive_cont.Stream.Reach.{withdraw_max_ok, discard_ok}
use stellar_stream_hive_cont.System.Deployment.{IsDeployed, finished_ok, release_pays, refund_pays}
use stellar_stream_hive_cont.System.Strangers.{IsSafe}

module _ {T : Type 0} (client : TokenClient T) (law : IsToken client)
    (host : Invoker (Storage.World T)) (self vault : Address) (callee : Env → Env)
    (deployment : IsDeployed client host vault callee) where
  deposit-IsSafe :
      (env : Env) (from token : Address) (amount : ℤ) (id : ℕ) (o o' : Storage.World T)
      → (callee env).authorizes vault ≡ false
      → VaultClient.deposit host env vault from token amount id o ≡ some o'
      → IsSafe client self vault o
      → IsSafe client self vault o'
  deposit-IsSafe env from token amount id o o' mute h s =
      let e = finished_ok _ o' (rw (deployment.runs_deposit env from token amount id o) at h) in
      record {
        custodian =
            deposit-IsCustodian client law vault (callee env) from token amount id o o'
              (deployment.here env) mute s.custodian e;
        bound =
            rw ((deposit_ok client (callee env) from token amount id o o' e).contract_kept) s.bound;
      }

  payout-IsSafe :
      (env : Env) (caller to token : Address) (amount : ℤ) (id : ℕ) (kind : PayoutKind)
      (o o' : Storage.World T)
      → Contract.authorize_and_pay client (callee env) caller to token amount id kind o
        ≡ ok (tt, o')
      → IsSafe client self vault o
      → IsSafe client self vault o'
  payout-IsSafe env caller to token amount id kind o o' e s = record {
    custodian =
        payout-IsCustodian client law vault (callee env) caller to token amount id kind o o'
          (deployment.here env) s.custodian e;
    bound =
        rw
          ((authorize_and_pay_ok client (callee env) caller to token amount id kind o o'
            e).contract_kept)
          s.bound;
  }

  release-IsSafe :
      (env : Env) (caller to token : Address) (amount : ℤ) (id : ℕ) (o o' : Storage.World T)
      → VaultClient.release host env vault caller to token amount id o ≡ some o'
      → IsSafe client self vault o
      → IsSafe client self vault o'
  release-IsSafe env caller to token amount id o o' h =
      payout-IsSafe env caller to token amount id PayoutKind.release o o' (
        release_pays client (callee env) caller to token amount id o o'
          (finished_ok _ o' (rw (deployment.runs_release env caller to token amount id o) at h)))

  refund-IsSafe :
      (env : Env) (caller to token : Address) (amount : ℤ) (id : ℕ) (o o' : Storage.World T)
      → VaultClient.refund host env vault caller to token amount id o ≡ some o'
      → IsSafe client self vault o
      → IsSafe client self vault o'
  refund-IsSafe env caller to token amount id o o' h =
      payout-IsSafe env caller to token amount id PayoutKind.refund o o' (
        refund_pays client (callee env) caller to token amount id o o'
          (finished_ok _ o' (rw (deployment.runs_refund env caller to token amount id o) at h)))

  -- The vault that the stream contract is set up with, if any.
  abbrev UsesVault : World (Storage.World T) → Type 0
  UsesVault w = (u : Address) → w.vault ≡ some u → u ≡ vault

  withdraw-IsSafe :
      (env : Env) (recipient : Address) (id : ℕ) (amount : ℤ) (w w' : World (Storage.World T))
      → UsesVault w
      → withdraw host env recipient id amount w ≡ ok (tt, w')
      → IsSafe client self vault w.outside
      → IsSafe client self vault w'.outside
  withdraw-IsSafe env recipient id amount w w' uses h s =
      let (x, d) = withdraw_ok host env recipient id amount w w' h in
      let (u, at, paid) = d.released in
      release-IsSafe env _ _ _ amount id w.outside w'.outside (rw (uses u at) at paid) s

  -- Every call of the stream contract that goes through keeps the vault safe.
  pub invoke-IsSafe :
      (env : Env) (c : Call) (w w' : World (Storage.World T))
      → (callee env).authorizes vault ≡ false
      → UsesVault w
      → invoke host env c w ≡ ok (tt, w')
      → IsSafe client self vault w.outside
      → IsSafe client self vault w'.outside
  unfolding invoke initialize pause unpause transfer_admin
  invoke-IsSafe env (Call.initialize admin u) w w' mute uses h s =
      let e : w'.outside ≡ w.outside = ground arith in rw e s
  invoke-IsSafe env Call.pause w w' mute uses h s =
      let e : w'.outside ≡ w.outside = ground arith in rw e s
  invoke-IsSafe env Call.unpause w w' mute uses h s =
      let e : w'.outside ≡ w.outside = ground arith in rw e s
  invoke-IsSafe env (Call.transfer_admin new_admin) w w' mute uses h s =
      let e : w'.outside ≡ w.outside = ground arith in rw e s
  invoke-IsSafe env (Call.create_stream sender recipient token total first last cliff cancellable) w
        w' mute uses h s =
      let (id, h') =
        discard_ok
          (create_stream host env sender recipient token total first last cliff cancellable) w w'
          h in
      let c =
        create_stream_ok host env sender recipient token total first last cliff cancellable id w w'
          h' in
      let (u, at, paid) = c.funded in
      deposit-IsSafe env sender token total id w.outside w'.outside mute (rw (uses u at) at paid) s
  invoke-IsSafe env (Call.withdraw recipient id amount) w w' mute uses h s =
      withdraw-IsSafe env recipient id amount w w' uses h s
  invoke-IsSafe env (Call.withdraw_max recipient id) w w' mute uses h s =
      let (amount, h') = discard_ok (withdraw_max host env recipient id) w w' h in
      elim (withdraw_max_ok host env recipient id amount w w' h') [
        | inl (none_left, same) ↦ rw same s
        | inr taken ↦ withdraw-IsSafe env recipient id amount w w' uses taken s
      ]
  invoke-IsSafe env (Call.cancel_stream sender id) w w' mute uses h s =
      let (x, streamed, d) = cancel_stream_ok host env sender id w w' h in
      elim d.refunded [
        | inl (none_left, same) ↦ rw same s
        | inr (more, (u, at, paid)) ↦
            refund-IsSafe env _ _ _ _ id w.outside w'.outside (rw (uses u at) at paid) s
      ]

-- ===== src/System/Strangers.antt =====
-- Direct calls of the vault cannot hurt the streams.
use stellar_stream_hive_cont.Base.{ℕ, ◌≡◌, ◌⊎◌, inl, inr, Bool-cases, false, none, some, arith}
use stellar_stream_hive_cont.Base.Int.{◌≤ℤ◌, ltb_ℤ}
use stellar_stream_hive_cont.Host.{Env, Address, ok, commit, commit_elim}
use stellar_stream_hive_cont.Host.Token.{TokenClient}
use stellar_stream_hive_cont.Vault.Types.{PayoutKind}
use stellar_stream_hive_cont.Vault.Storage
use stellar_stream_hive_cont.Vault.Storage.{get_stream_balance, get_total_locked}
use stellar_stream_hive_cont.Vault.Steps
use stellar_stream_hive_cont.Vault.Contract
use stellar_stream_hive_cont.Vault.Access.{balance_falls-Trusted}
use stellar_stream_hive_cont.Vault.Custody.{IsCustodian}
use stellar_stream_hive_cont.Vault.Effects.{deposit_ok, authorize_and_pay_ok}
use stellar_stream_hive_cont.Stream.VaultLaws.{KeepsTokens}
use stellar_stream_hive_cont.System.Deployment.{
  token_of, release_pays, refund_pays, deposit_lays, payout_takes,
}
use stellar_stream_hive_cont.System.Steps.{Trusts}

-- The vault takes orders from nobody but the contract at `self`.
abbrev pub IsBound : {T : Type 0} → Address → Storage.World T → Type 0
IsBound self o = (o.stream_contract ≡ none) ⊎ (o.stream_contract ≡ some self)

-- What the vault keeps across one successful operation.
pub record IsSafe {T : Type 0} (client : TokenClient T) (self vault : Address) (o : Storage.World T)
    : Type 0 where
  pub custodian : IsCustodian client vault o
  pub bound : IsBound self o

-- Direct calls of the vault, in which the stream contract at `self` has authorized nothing.
module _ {T : Type 0} (client : TokenClient T) (self : Address) where
  pub stranger-le :
      (env : Env) (c : Steps.Call) (o : Storage.World T) (id : ℕ)
      → IsBound self o
      → env.authorizes self ≡ false
      → get_stream_balance id o ≤ℤ get_stream_balance id (commit o (Steps.invoke client env c o))
  stranger-le env c o id b mute =
      let after = get_stream_balance id (commit o (Steps.invoke client env c o)) in
      elim (Bool-cases (ltb_ℤ after (get_stream_balance id o))) [
        | inl less ↦
            let (caller, _, trusted, signed) =
              balance_falls-Trusted client env c id o (ground arith) in
            absurd (ground arith)
        | inr more ↦ ground arith
      ]

  success-KeepsTokens :
      (env : Env) (c : Steps.Call) (o o' : Storage.World T)
      → Steps.invoke client env c o ≡ ok (tt, o')
      → KeepsTokens token_of o o'
  unfolding Steps.invoke Contract.initialize Contract.set_stream_contract
  success-KeepsTokens env (Steps.initialize admin contract) o o' h = λ i t l. ground arith
  success-KeepsTokens env (Steps.set_stream_contract admin contract) o o' h = λ i t l. ground arith
  success-KeepsTokens env (Steps.deposit from token amount id) o o' h =
      (deposit_lays client env from token amount id o o' h).2
  success-KeepsTokens env (Steps.release caller to token amount id) o o' h =
      (payout_takes client env caller to token amount id PayoutKind.release o o'
        (release_pays client env caller to token amount id o o' h)).1
  success-KeepsTokens env (Steps.refund caller to token amount id) o o' h =
      (payout_takes client env caller to token amount id PayoutKind.refund o o'
        (refund_pays client env caller to token amount id o o' h)).1

  pub stranger-KeepsTokens :
      (env : Env) (c : Steps.Call) (o : Storage.World T)
      → KeepsTokens token_of o (commit o (Steps.invoke client env c o))
  stranger-KeepsTokens env c o =
      commit_elim (KeepsTokens token_of o) o (Steps.invoke client env c o) (λ i t l. l)
        (success-KeepsTokens env c o)

  success-IsBound :
      (env : Env) (c : Steps.Call) (o o' : Storage.World T)
      → Trusts self c
      → IsBound self o
      → Steps.invoke client env c o ≡ ok (tt, o')
      → IsBound self o'
  unfolding Steps.invoke Contract.initialize Contract.set_stream_contract
  success-IsBound env (Steps.initialize admin contract) o o' t b h = inr (ground arith)
  success-IsBound env (Steps.set_stream_contract admin contract) o o' t b h = inr (ground arith)
  success-IsBound env (Steps.deposit from token amount id) o o' t b h =
      rw ((deposit_ok client env from token amount id o o' h).contract_kept) b
  success-IsBound env (Steps.release caller to token amount id) o o' t b h =
      rw
        ((authorize_and_pay_ok client env caller to token amount id PayoutKind.release o o'
          (release_pays client env caller to token amount id o o' h)).contract_kept)
        b
  success-IsBound env (Steps.refund caller to token amount id) o o' t b h =
      rw
        ((authorize_and_pay_ok client env caller to token amount id PayoutKind.refund o o'
          (refund_pays client env caller to token amount id o o' h)).contract_kept)
        b

  pub stranger-IsBound :
      (env : Env) (c : Steps.Call) (o : Storage.World T)
      → Trusts self c
      → IsBound self o
      → IsBound self (commit o (Steps.invoke client env c o))
  stranger-IsBound env c o t b =
      commit_elim (IsBound self) o (Steps.invoke client env c o) b
        (λ o' h. success-IsBound env c o o' t b h)

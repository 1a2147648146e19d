-- ===== src/System/Deployment.antt =====
-- A deployed vault fulfils what the stream contract relies on.
use stellar_stream_hive_cont.Base.{ℕ, ◌≡◌, ◌∙◌, true, Option, none, some, [], ◌∷◌, arith}
use stellar_stream_hive_cont.Base.Int.{ℤ}
use stellar_stream_hive_cont.Base.Dict.{lookup, lookup-insert}
use stellar_stream_hive_cont.Host.{Env, Address, Outcome, ok, err, trap}
use stellar_stream_hive_cont.Host.Invoke.{Val, Invoker}
use stellar_stream_hive_cont.Host.Token.{TokenClient}
use stellar_stream_hive_cont.Vault.Types.{PayoutKind}
use stellar_stream_hive_cont.Vault.Storage.{get_stream_balance}
use stellar_stream_hive_cont.Vault.Storage
use stellar_stream_hive_cont.Vault.Contract.{deposit, release, refund, authorize_and_pay}
use stellar_stream_hive_cont.Vault.Effects.{deposit_ok, authorize_and_pay_ok, balance-insert}
use stellar_stream_hive_cont.Stream.VaultLaws.{IsVault, TakesOut, PutsIn, KeepsTokens}

-- How the host ends a call of another contract: a failure of the callee is one of the caller.
abbrev pub finished : {E S : Type 0} → Outcome E (Unit {0} × S) → Option S
finished (ok (u, s)) = some s
finished (err e) = none
finished trap = none

pub finished_ok :
    {E S : Type 0} (r : Outcome E (Unit {0} × S)) (s : S) → finished r ≡ some s → r ≡ ok (tt, s)
finished_ok r s h = ground arith

-- The vault is deployed at the address `vault`, over the tokens of `client`: a call of one of its
-- functions by name runs it with the arguments in their order, in an environment `callee env` of
-- the same ledger, in which the calling contract is authorized.
pub record IsDeployed {T : Type 0} (client : TokenClient T) (host : Invoker (Storage.World T))
    (vault : Address) (callee : Env → Env) : Type 0 where
  pub here : (env : Env) → (callee env).current_contract ≡ vault
  pub same_ledger : (env : Env) → (callee env).sequence ≡ env.sequence
  pub invoker : (env : Env) → (callee env).authorizes env.current_contract ≡ true
  pub runs_deposit :
      (env : Env) (from token : Address) (amount : ℤ) (id : ℕ) (w : Storage.World T)
      → host.invoke_contract env vault "deposit"
          (Val.address from ∷ Val.address token ∷ Val.i128 amount ∷ Val.u64 id ∷ [])
          w
        ≡ finished (deposit client (callee env) from token amount id w)
  pub runs_release :
      (env : Env) (caller to token : Address) (amount : ℤ) (id : ℕ) (w : Storage.World T)
      → host.invoke_contract env vault "release"
          (Val.address caller
            ∷ Val.address to
            ∷ Val.address token
            ∷ Val.i128 amount
            ∷ Val.u64 id
            ∷ [])
          w
        ≡ finished (release client (callee env) caller to token amount id w)
  pub runs_refund :
      (env : Env) (caller to token : Address) (amount : ℤ) (id : ℕ) (w : Storage.World T)
      → host.invoke_contract env vault "refund"
          (Val.address caller
            ∷ Val.address to
            ∷ Val.address token
            ∷ Val.i128 amount
            ∷ Val.u64 id
            ∷ [])
          w
        ≡ finished (refund client (callee env) caller to token amount id w)

abbrev pub token_of : {T : Type 0} → ℕ → Storage.World T → Option Address
token_of id w = lookup id w.stream_token

module _ {T : Type 0} (client : TokenClient T) where
  pub deposit_lays :
      (env : Env) (from token : Address) (amount : ℤ) (id : ℕ) (w w' : Storage.World T)
      → deposit client env from token amount id w ≡ ok (tt, w')
      → PutsIn get_stream_balance amount id w w'
        × (token_of id w' ≡ some token)
        × KeepsTokens token_of w w'
  deposit_lays env from token amount id w w' h =
      let d = deposit_ok client env from token amount id w w' h in
      (
        λ i. balance-insert i id _ w w' d.balance_set ∙ ground arith,
        rw d.token_set (ground (arith, d.token_fits, lookup-insert id id token w.stream_token)),
        λ i t l.
            rw d.token_set (ground (arith, d.token_fits, lookup-insert i id token w.stream_token)),
      )

  pub payout_takes :
      (env : Env) (caller to token : Address) (amount : ℤ) (id : ℕ) (kind : PayoutKind)
      (w w' : Storage.World T)
      → authorize_and_pay client env caller to token amount id kind w ≡ ok (tt, w')
      → TakesOut get_stream_balance amount id w w' × KeepsTokens token_of w w'
  payout_takes env caller to token amount id kind w w' h =
      let d = authorize_and_pay_ok client env caller to token amount id kind w w' h in
      (
        (d.covered, λ i. balance-insert i id _ w w' d.balance_set ∙ ground arith),
        λ i t l. rw d.token_kept l,
      )

module _ {T : Type 0} (client : TokenClient T) where
  pub release_pays :
      (env : Env) (caller to token : Address) (amount : ℤ) (id : ℕ) (w w' : Storage.World T)
      → release client env caller to token amount id w ≡ ok (tt, w')
      → authorize_and_pay client env caller to token amount id PayoutKind.release w ≡ ok (tt, w')
  unfolding release
  release_pays env caller to token amount id w w' h = h

  pub refund_pays :
      (env : Env) (caller to token : Address) (amount : ℤ) (id : ℕ) (w w' : Storage.World T)
      → refund client env caller to token amount id w ≡ ok (tt, w')
      → authorize_and_pay client env caller to token amount id PayoutKind.refund w ≡ ok (tt, w')
  unfolding refund
  refund_pays env caller to token amount id w w' h = h

module _ {T : Type 0} (client : TokenClient T) (host : Invoker (Storage.World T)) (vault : Address)
    (callee : Env → Env) (deployed : IsDeployed client host vault callee) where
  -- The vault contract, deployed, is a vault for the stream contract.
  unfoldable pub deployed_vault : IsVault host vault
  deployed_vault = record {
    balance = get_stream_balance;
    token_of = token_of;
    deposit_adds = λ env from token amount id w w' h.
        deposit_lays client (callee env) from token amount id w w'
          (finished_ok _ w' (rw (deployed.runs_deposit env from token amount id w) at h));
    release_takes = λ env caller to token amount id w w' h.
        payout_takes client (callee env) caller to token amount id PayoutKind.release w w' (
          release_pays client (callee env) caller to token amount id w w'
            (finished_ok _ w' (rw (deployed.runs_release env caller to token amount id w) at h)));
    refund_takes = λ env caller to token amount id w w' h.
        payout_takes client (callee env) caller to token amount id PayoutKind.refund w w' (
          refund_pays client (callee env) caller to token amount id w w'
            (finished_ok _ w' (rw (deployed.runs_refund env caller to token amount id w) at h)));
  }

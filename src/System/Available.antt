-- ===== src/System/Available.antt =====
-- Funds can always be reached: what a recipient may claim, the system pays.
use stellar_stream_hive_cont.Base.{ℕ, ◌≤◌, ◌≡◌, refl, sym, true, some, ◌==◌, arith, ==-refl}
use mathlib.Core.Path.{subst}
use stellar_stream_hive_cont.Base.Int.{ℤ, pos, ◌+ℤ◌, ◌-ℤ◌, ◌≤ℤ◌}
use stellar_stream_hive_cont.Base.Dict.{lookup, lookup-insert}
use stellar_stream_hive_cont.Host.{Env, Address, ok}
use stellar_stream_hive_cont.Host.Invoke.{Invoker}
use stellar_stream_hive_cont.Host.Token.{TokenClient, IsToken}
use stellar_stream_hive_cont.Vault.Types.{PayoutKind}
use stellar_stream_hive_cont.Vault.Storage
use stellar_stream_hive_cont.Vault.Storage.{get_stream_balance}
use stellar_stream_hive_cont.Vault.Contract.{release}
use stellar_stream_hive_cont.Vault.Payout.{payout_available}
use stellar_stream_hive_cont.Stream.Types.{Stream}
use stellar_stream_hive_cont.Stream.Storage.{World}
use stellar_stream_hive_cont.Stream.Contract.{withdraw}
use stellar_stream_hive_cont.Stream.Accrual.{HasRoom}
use stellar_stream_hive_cont.Stream.Withdrawable.{claimable}
use stellar_stream_hive_cont.Stream.Solvency.{later-IsGood}
use stellar_stream_hive_cont.Stream.Available.{claimable-le-outstanding, withdraw_succeeds}
use stellar_stream_hive_cont.System.Deployment.{IsDeployed, deployed_vault}
use stellar_stream_hive_cont.System.Solvency.{IsSound}

module _ {T : Type 0} (client : TokenClient T) (law : IsToken client)
    (host : Invoker (Storage.World T)) (self vault : Address) (callee : Env → Env)
    (deployment : IsDeployed client host vault callee) where
  -- In a state of the deployed system in which `IsSound` holds, as it does in each that can be
  -- reached, a withdrawal by the stream's recipient, who has authorized it, of a positive amount up
  -- to what is claimable at the ledger goes through, if the contract and the vault are set up with
  -- each other, the stream has room for its products and the token contract makes the transfer. It
  -- adds the amount to the stream's `withdrawn`, changes nothing else of the stream, and lowers the
  -- vault's balance of the stream by the amount.
  pub withdraw_available :
      (env : Env) (s : Stream) (id now : ℕ) (amount : ℤ) (t : T) (w : World (Storage.World T))
      → IsSound client law host self vault callee deployment now w
      → now ≤ env.sequence
      → env.current_contract ≡ self
      → w.vault ≡ some vault
      → w.outside.stream_contract ≡ some self
      → lookup id w.streams ≡ some s
      → HasRoom s
      → env.authorizes s.recipient ≡ true
      → pos 1 ≤ℤ amount
      → amount ≤ℤ pos (claimable s env.sequence)
      → client.transfer (callee env) s.token vault s.recipient amount w.outside.tokens ≡ some t
      → (w' : World (Storage.World T)) × (withdraw host env s.recipient id amount w ≡ ok (tt, w'))
        × (lookup id w'.streams ≡ some (record s { withdrawn = s.withdrawn +ℤ amount }))
        × (get_stream_balance id w'.outside ≡ get_stream_balance id w.outside -ℤ amount)
  unfolding release deployed_vault
  withdraw_available env s id now amount t w sound h here v c e r a p le paid =
      let covered = sound.solvent.streams id s e in
      let g =
        later-IsGood host vault (deployed_vault client host vault callee deployment) now
          env.sequence id s h covered.good in
      let (o, run, balances, total) =
        payout_available client (callee env) env.current_contract s.recipient s.token amount id
          PayoutKind.release w.outside t sound.safe.custodian.accounted p (rw here c)
          (deployment.invoker env) covered.denominated
          (omega (arith, claimable-le-outstanding s env.sequence id g, covered.covered))
          (subst
            (λ x.
              client.transfer (callee env) s.token x s.recipient amount w.outside.tokens ≡ some t)
            (sym (deployment.here env)) paid) in
      let same : (id == s.id) ≡ true = ground (arith, g.key) in
      let call =
        deployment.runs_release env env.current_contract s.recipient s.token amount id w.outside in
      (
        _,
        withdraw_succeeds host env s id amount vault o w e g r a v p le (rw (call, run) refl),
        rw (lookup-insert id s.id _ w.streams, same),
        rw (balances id, ==-refl id),
      )

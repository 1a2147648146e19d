-- ===== src/System/Cancelling.antt =====
-- A sender can always cancel in time, and the deposit is split.
use stellar_stream_hive_cont.Base.{
  ℕ, ◌≤◌, ◌<◌, ◌≡◌, ◌≢◌, refl, sym, true, some, ◌==◌, arith, ==-refl,
}
use mathlib.Core.Path.{subst}
use stellar_stream_hive_cont.Base.Int.{pos, ◌+ℤ◌, ◌-ℤ◌, int_laws, parts_apart}
use stellar_stream_hive_cont.Base.Dict.{lookup, lookup-insert}
use stellar_stream_hive_cont.Host.{Env, Address, ok}
use stellar_stream_hive_cont.Host.Invoke.{Invoker}
use stellar_stream_hive_cont.Host.Token.{TokenClient, IsToken}
use stellar_stream_hive_cont.Vault.Types.{PayoutKind}
use stellar_stream_hive_cont.Vault.Storage
use stellar_stream_hive_cont.Vault.Storage.{get_stream_balance}
use stellar_stream_hive_cont.Vault.Contract.{refund}
use stellar_stream_hive_cont.Vault.Payout.{payout_available}
use stellar_stream_hive_cont.Stream.Types.{Stream, cancelled}
use stellar_stream_hive_cont.Stream.Storage.{World}
use stellar_stream_hive_cont.Stream.Math.{withdrawable_amount}
use stellar_stream_hive_cont.Stream.Contract.{cancel_stream}
use stellar_stream_hive_cont.Stream.Accrual.{HasRoom}
use stellar_stream_hive_cont.Stream.CancelEffect.{stopped}
use stellar_stream_hive_cont.Stream.Entitled.{entitled}
use stellar_stream_hive_cont.Stream.Withdrawable.{claimable}
use stellar_stream_hive_cont.Stream.Solvency.{later-IsGood, outstanding}
use stellar_stream_hive_cont.Stream.Cancellable.{cancel_succeeds, stopped-splits, entitled-lt}
use stellar_stream_hive_cont.System.Deployment.{IsDeployed, deployed_vault}
use stellar_stream_hive_cont.System.Solvency.{IsSound}

pub outstanding_live :
    (s : Stream) → s.status ≢ cancelled → outstanding s ≡ s.total_amount -ℤ s.withdrawn
outstanding_live s n = ground arith

module _ {T : Type 0} (client : TokenClient T) (law : IsToken client)
    (host : Invoker (Storage.World T)) (self vault : Address) (callee : Env → Env)
    (deployment : IsDeployed client host vault callee) where
  -- In a state of the deployed system in which `IsSound` holds, as it does in each that can be
  -- reached, a cancellation by the sender, who has authorized it, of a cancellable stream that was not
  -- cancelled and has not ended goes through, if the contract and the vault are set up with each
  -- other, the stream has room for its products and the token contract makes the transfer of the
  -- refund, which is all that the recipient is not entitled to. The vault's balance of the stream
  -- falls by the refund. From then on, at every ledger, the recipient can withdraw what was claimable
  -- at the cancellation; that, what was withdrawn before and the refund are together the deposit.
  pub cancel_available :
      (env : Env) (s : Stream) (id now later : ℕ) (t : T) (w : World (Storage.World T))
      → IsSound client law host self vault callee deployment now w
      → now ≤ env.sequence
      → env.current_contract ≡ self
      → w.vault ≡ some vault
      → w.outside.stream_contract ≡ some self
      → lookup id w.streams ≡ some s
      → HasRoom s
      → env.authorizes s.sender ≡ true
      → s.cancellable ≡ true
      → s.status ≢ cancelled
      → env.sequence < s.end_ledger
      → client.transfer
          (callee env)
          s.token
          vault
          s.sender
          (s.total_amount -ℤ pos (entitled s env.sequence))
          w.outside.tokens
        ≡ some t
      → (w' : World (Storage.World T)) × (cancel_stream host env s.sender id w ≡ ok (tt, w'))
        × (lookup id w'.streams ≡ some (stopped s env.sequence))
        × (get_stream_balance id w'.outside
            ≡ get_stream_balance id w.outside -ℤ (s.total_amount -ℤ pos (entitled s env.sequence)))
        × (withdrawable_amount (stopped s env.sequence) later ≡ ok (pos (claimable s env.sequence)))
        × (s.withdrawn
              +ℤ pos (claimable s env.sequence)
              +ℤ (s.total_amount -ℤ pos (entitled s env.sequence))
            ≡ s.total_amount)
  unfolding refund deployed_vault
  cancel_available env s id now later t w sound h here v c e r a k n before paid =
      let covered = sound.solvent.streams id s e in
      let g =
        later-IsGood host vault (deployed_vault client host vault callee deployment) now
          env.sequence id s h covered.good in
      let below = entitled-lt s env.sequence g.terms n before in
      let owed = rw (outstanding_live s n) at covered.covered in
      let granted = g.granted in
      let (o, run, balances, total) =
        payout_available client (callee env) env.current_contract s.sender s.token _ id
          PayoutKind.refund w.outside t sound.safe.custodian.accounted
          (omega (int_laws, parts_apart s.total_amount)) (rw here c) (deployment.invoker env)
          covered.denominated
          (omega (int_laws, parts_apart s.total_amount, parts_apart s.withdrawn))
          (subst
            (λ x.
              client.transfer (callee env) s.token x s.sender
                (s.total_amount -ℤ pos (entitled s env.sequence)) w.outside.tokens
              ≡ some t)
            (sym (deployment.here env)) paid) in
      let same : (id == s.id) ≡ true = ground (arith, g.key) in
      let call =
        deployment.runs_refund env env.current_contract s.sender s.token
          (s.total_amount -ℤ pos (entitled s env.sequence)) id w.outside in
      let (left, split) = stopped-splits s env.sequence later id g r n in
      (
        _,
        cancel_succeeds host env s id vault o w e g r a k n before v (rw (call, run) refl),
        rw (lookup-insert id s.id _ w.streams, same),
        rw (balances id, ==-refl id),
        left,
        split,
      )

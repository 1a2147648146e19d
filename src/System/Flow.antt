-- ===== src/System/Flow.antt =====
-- Which tokens move when streams are created, withdrawn from and cancelled.
use stellar_stream_hive_cont.Base.{
  ℕ, ◌+◌, ◌≡◌, refl, ◌⊎◌, inl, inr, Bool, some, ◌&&◌, ◌==◌, arith, if◌then◌else◌,
}
use stellar_stream_hive_cont.Base.Int.{ℤ, pos, ◌+ℤ◌, ◌-ℤ◌, ◌≤ℤ◌}
use stellar_stream_hive_cont.Base.Dict.{lookup}
use stellar_stream_hive_cont.Host.{Env, Address, ok}
use stellar_stream_hive_cont.Host.Invoke.{Invoker}
use stellar_stream_hive_cont.Host.Token.{TokenClient, IsToken}
use stellar_stream_hive_cont.Vault.Types.{PayoutKind}
use stellar_stream_hive_cont.Vault.Storage
use stellar_stream_hive_cont.Vault.Contract.{authorize_and_pay}
use stellar_stream_hive_cont.Vault.Effects.{deposit_ok, authorize_and_pay_ok}
use stellar_stream_hive_cont.Stream.Types.{Stream}
use stellar_stream_hive_cont.Stream.Math.{streamed_amount}
use stellar_stream_hive_cont.Stream.Storage.{World, current_id}
use stellar_stream_hive_cont.Stream.Contract.{create_stream, withdraw, cancel_stream}
use stellar_stream_hive_cont.Stream.Effects.{create_stream_ok, withdraw_ok}
use stellar_stream_hive_cont.Stream.CancelEffect.{stopped, cancel_stream_ok}
use stellar_stream_hive_cont.System.Deployment.{IsDeployed, finished_ok, release_pays, refund_pays}

-- The amount moves from one account to the other, and no other balance of any token changes.
abbrev pub Moved : {T : Type 0} → TokenClient T → Address → Address → Address → ℤ → T → T → Type 0
Moved client token from to amount t u =
    (tok a : Address)
    → client.balance tok a u
      ≡ client.balance tok a t
        -ℤ (if tok == token && a == from then amount else pos 0)
        +ℤ (if tok == token && a == to then amount else pos 0)

module _ {T : Type 0} (client : TokenClient T) (law : IsToken client)
    (host : Invoker (Storage.World T)) (vault : Address) (callee : Env → Env)
    (deployment : IsDeployed client host vault callee) where
  -- A payout that the deployed vault makes.
  payout_moves :
      (env : Env) (caller to token : Address) (amount : ℤ) (id : ℕ) (kind : PayoutKind)
      (o o' : Storage.World T)
      → authorize_and_pay client (callee env) caller to token amount id kind o ≡ ok (tt, o')
      → Moved client token vault to amount o.tokens o'.tokens
  payout_moves env caller to token amount id kind o o' run =
      let d = authorize_and_pay_ok client (callee env) caller to token amount id kind o o' run in
      rw (← deployment.here env) (
        law.transfer_moves (callee env) token (callee env).current_contract to amount o.tokens
          o'.tokens d.paid)

  -- A withdrawal that goes through moves exactly the amount, in the stream's token, from the vault to
  -- the stream's recipient.
  pub withdraw_moves :
      (env : Env) (recipient : Address) (id : ℕ) (amount : ℤ) (w w' : World (Storage.World T))
      → w.vault ≡ some vault
      → withdraw host env recipient id amount w ≡ ok (tt, w')
      → (s : Stream) × (lookup id w.streams ≡ some s)
        × Moved client s.token vault s.recipient amount w.outside.tokens w'.outside.tokens
  withdraw_moves env recipient id amount w w' v run =
      let (s, d) = withdraw_ok host env recipient id amount w w' run in
      let (u, at, paid) = d.released in
      let same : u ≡ vault = ground (arith, v, at) in
      let call =
        rw
          (
            same,
            deployment.runs_release env env.current_contract recipient s.token amount id w.outside,
          )
          at paid in
      let pay =
        release_pays client (callee env) env.current_contract recipient s.token amount id w.outside
          w'.outside (finished_ok _ w'.outside call) in
      (
        s,
        d.found,
        rw d.owned (
            payout_moves env env.current_contract recipient s.token amount id PayoutKind.release
              w.outside w'.outside pay),
      )

  -- A cancellation that goes through moves exactly what had not streamed by then, in the stream's
  -- token, from the vault to the stream's sender; it moves nothing if all had streamed.
  pub cancel_stream_moves :
      (env : Env) (sender : Address) (id : ℕ) (w w' : World (Storage.World T))
      → w.vault ≡ some vault
      → cancel_stream host env sender id w ≡ ok (tt, w')
      → (s : Stream) × (streamed : ℤ) × (lookup id w.streams ≡ some s)
        × (streamed_amount (stopped s env.sequence) env.sequence ≡ ok streamed)
        × (((s.total_amount -ℤ streamed ≤ℤ pos 0) × (w'.outside.tokens ≡ w.outside.tokens))
            ⊎ Moved client s.token vault s.sender
                (s.total_amount -ℤ streamed)
                w.outside.tokens
                w'.outside.tokens)
  cancel_stream_moves env sender id w w' v run =
      let (s, streamed, d) = cancel_stream_ok host env sender id w w' run in
      (
        s,
        streamed,
        d.found,
        d.streamed_now,
        elim d.refunded [
          | inl (none_left, same) ↦ inl (none_left, rw same refl)
          | inr (some_left, (u, at, paid)) ↦
              let same : u ≡ vault = ground (arith, v, at) in
              let call =
                rw
                  (
                    same,
                    deployment.runs_refund env env.current_contract sender s.token
                        (s.total_amount -ℤ streamed) id w.outside,
                  )
                  at paid in
              let pay =
                refund_pays client (callee env) env.current_contract sender s.token
                  (s.total_amount -ℤ streamed) id w.outside w'.outside
                  (finished_ok _ w'.outside call) in
              inr (
                rw d.owned (
                  payout_moves env env.current_contract sender s.token (s.total_amount -ℤ streamed)
                    id PayoutKind.refund w.outside w'.outside pay))
        ],
      )

  -- A creation that goes through moves exactly the deposit, in the token given, from the sender to
  -- the vault, and answers the id under which the stream is stored.
  pub create_stream_moves :
      (env : Env) (sender recipient token : Address) (total : ℤ) (first last cliff : ℕ)
      (cancellable : Bool) (id : ℕ) (w w' : World (Storage.World T))
      → w.vault ≡ some vault
      → create_stream host env sender recipient token total first last cliff cancellable w
        ≡ ok (id, w')
      → (id ≡ current_id w + 1)
        × Moved client token sender vault total w.outside.tokens w'.outside.tokens
  create_stream_moves env sender recipient token total first last cliff cancellable id w w' v run =
      let d =
        create_stream_ok host env sender recipient token total first last cliff cancellable id w w'
          run in
      let (u, at, paid) = d.funded in
      let same : u ≡ vault = ground (arith, v, at) in
      let call = rw (same, deployment.runs_deposit env sender token total id w.outside) at paid in
      let e =
        deposit_ok client (callee env) sender token total id w.outside w'.outside
          (finished_ok _ w'.outside call) in
      (
        d.fresh_id,
        rw (← deployment.here env) (
            law.transfer_moves (callee env) token sender (callee env).current_contract total
              w.outside.tokens w'.outside.tokens e.paid),
      )

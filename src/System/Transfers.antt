-- ===== src/System/Transfers.antt =====
-- Which tokens any call of the stream contract moves.
use stellar_stream_hive_cont.Base.{
  ℕ, ◌≡◌, ◌⊎◌, inl, inr, some, ◌&&◌, ◌==◌, arith, Bool, Option-cases, if◌then◌else◌,
}
use stellar_stream_hive_cont.Base.Int.{ℤ, pos, ◌-ℤ◌, ◌≤ℤ◌, int_laws, eq_of_parts}
use stellar_stream_hive_cont.Base.Dict.{lookup}
use stellar_stream_hive_cont.Host.{Env, Address, ok}
use stellar_stream_hive_cont.Host.Invoke.{Invoker}
use stellar_stream_hive_cont.Host.Token.{TokenClient, IsToken}
use stellar_stream_hive_cont.Vault.Storage
use stellar_stream_hive_cont.Stream.Types.{Stream}
use stellar_stream_hive_cont.Stream.Math.{streamed_amount, withdrawable_amount}
use stellar_stream_hive_cont.Stream.Storage.{World}
use stellar_stream_hive_cont.Stream.Contract.{
  initialize, pause, unpause, transfer_admin, create_stream, withdraw_max,
}
use stellar_stream_hive_cont.Stream.CancelEffect.{stopped}
use stellar_stream_hive_cont.Stream.Drain.{withdraw_max-available}
use stellar_stream_hive_cont.Stream.Reach.{withdraw_max_ok, discard_ok}
use stellar_stream_hive_cont.Stream.Steps.{Call, invoke}
use stellar_stream_hive_cont.System.Deployment.{IsDeployed}
use stellar_stream_hive_cont.System.Flow.{
  Moved, withdraw_moves, cancel_stream_moves, create_stream_moves,
}

either_zero : (b : Bool) → (if b then pos 0 else pos 0) ≡ pos 0
either_zero b = ground arith

module _ {T : Type 0} (client : TokenClient T) where
  -- What a call of the stream contract moves between the accounts.
  abbrev pub Transfers :
      Address → Env → Call → World (Storage.World T) → World (Storage.World T) → Type 0
  Transfers vault env (Call.create_stream sender recipient token total first last cliff cancellable)
        w w' =
      Moved client token sender vault total w.outside.tokens w'.outside.tokens
  Transfers vault env (Call.withdraw recipient id amount) w w' =
      (s : Stream) × (lookup id w.streams ≡ some s)
      × Moved client s.token vault s.recipient amount w.outside.tokens w'.outside.tokens
  Transfers vault env (Call.withdraw_max recipient id) w w' =
      (s : Stream) × (amount : ℤ) × (lookup id w.streams ≡ some s)
      × (withdrawable_amount s env.sequence ≡ ok amount)
      × Moved client s.token vault s.recipient amount w.outside.tokens w'.outside.tokens
  Transfers vault env (Call.cancel_stream sender id) w w' =
      (s : Stream) × (streamed : ℤ) × (lookup id w.streams ≡ some s)
      × (streamed_amount (stopped s env.sequence) env.sequence ≡ ok streamed)
      × (((s.total_amount -ℤ streamed ≤ℤ pos 0) × (w'.outside.tokens ≡ w.outside.tokens))
          ⊎ Moved client s.token vault s.sender (s.total_amount -ℤ streamed) w.outside.tokens
              w'.outside.tokens)
  Transfers vault env _ w w' = w'.outside.tokens ≡ w.outside.tokens

  -- Moving nothing.
  Moved-none : (token from to : Address) (t : T) → Moved client token from to (pos 0) t t
  Moved-none token from to t tok a =
      rw (either_zero (tok == token && a == from), either_zero (tok == token && a == to))
        (eq_of_parts _ _ (omega int_laws))

withdraw_max_found :
    {W : Type 0} (host : Invoker W) (env : Env) (recipient : Address) (id : ℕ) (amount : ℤ)
    (w w' : World W)
    → withdraw_max host env recipient id w ≡ ok (amount, w')
    → (s : Stream) × (lookup id w.streams ≡ some s)
unfolding withdraw_max
withdraw_max_found host env recipient id amount w w' run =
    elim (Option-cases (lookup id w.streams)) [
      | inl missing ↦ absurd (ground arith)
      | inr found ↦ found
    ]

module _ {T : Type 0} (client : TokenClient T) (law : IsToken client)
    (host : Invoker (Storage.World T)) (vault : Address) (callee : Env → Env)
    (deployment : IsDeployed client host vault callee) where
  withdraw_max_moves :
      (env : Env) (recipient : Address) (id : ℕ) (w w' : World (Storage.World T)) (amount : ℤ)
      → w.vault ≡ some vault
      → withdraw_max host env recipient id w ≡ ok (amount, w')
      → Transfers client vault env (Call.withdraw_max recipient id) w w'
  withdraw_max_moves env recipient id w w' amount v run =
      let (s, found) = withdraw_max_found host env recipient id amount w w' run in
      let available = withdraw_max-available host env recipient id amount s w w' found run in
      elim (withdraw_max_ok host env recipient id amount w w' run) [
        | inl (nothing, same) ↦ (
          s,
          amount,
          found,
          available,
          rw (same, nothing) (Moved-none client s.token vault s.recipient w.outside.tokens),
        )
        | inr taken ↦
            let (x, there, moved) =
              withdraw_moves client law host vault callee deployment env recipient id amount w w' v
                taken in
            (
              x,
              amount,
              there,
              withdraw_max-available host env recipient id amount x w w' there run,
              moved,
            )
      ]

  -- A call of the stream contract that goes through, where the contract is set up with the deployed
  -- vault. A creation moves exactly the deposit from the sender to the vault, in the token given; a
  -- withdrawal moves exactly the amount, and `withdraw_max` what is withdrawable, from the vault to
  -- the stream's recipient, and a cancellation what had not streamed from the vault to the stream's
  -- sender, or nothing if all had streamed, in the stream's token; no other balance of any token
  -- changes. All other calls leave the tokens alone.
  pub invoke-Transfers :
      (env : Env) (c : Call) (w w' : World (Storage.World T))
      → w.vault ≡ some vault
      → invoke host env c w ≡ ok (tt, w')
      → Transfers client vault env c w w'
  unfolding invoke initialize pause unpause transfer_admin
  invoke-Transfers env (Call.initialize admin u) w w' v run = ground arith
  invoke-Transfers env Call.pause w w' v run = ground arith
  invoke-Transfers env Call.unpause w w' v run = ground arith
  invoke-Transfers env (Call.transfer_admin a) w w' v run = ground arith
  invoke-Transfers env
        (Call.create_stream sender recipient token total first last cliff cancellable) w w' v run =
      let (id, run') =
        discard_ok
          (create_stream host env sender recipient token total first last cliff cancellable) w w'
          run in
      (create_stream_moves client law host vault callee deployment env sender recipient token total
        first last cliff cancellable id w w' v run').1
  invoke-Transfers env (Call.withdraw recipient id amount) w w' v run =
      withdraw_moves client law host vault callee deployment env recipient id amount w w' v run
  invoke-Transfers env (Call.withdraw_max recipient id) w w' v run =
      let (amount, run') = discard_ok (withdraw_max host env recipient id) w w' run in
      withdraw_max_moves env recipient id w w' amount v run'
  invoke-Transfers env (Call.cancel_stream sender id) w w' v run =
      cancel_stream_moves client law host vault callee deployment env sender id w w' v run

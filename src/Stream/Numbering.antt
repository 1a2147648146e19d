-- ===== src/Stream/Numbering.antt =====
-- The size of the counter of stream ids.
use stellar_stream_hive_cont.Base.{ℕ, ◌≤◌, ◌≡◌, refl, inl, inr, arith}
use stellar_stream_hive_cont.Base.Int.{ℤ}
use stellar_stream_hive_cont.Host.{Env, Address, ok, commit_elim}
use stellar_stream_hive_cont.Host.Invoke.{Invoker}
use stellar_stream_hive_cont.Stream.Storage.{World, current_id, u64_max}
use stellar_stream_hive_cont.Stream.Contract.{
  initialize, pause, unpause, transfer_admin, create_stream, withdraw, withdraw_max,
}
use stellar_stream_hive_cont.Stream.Effects.{create_stream_ok, withdraw_ok}
use stellar_stream_hive_cont.Stream.CancelEffect.{cancel_stream_ok}
use stellar_stream_hive_cont.Stream.Reach.{withdraw_max_ok, discard_ok}
use stellar_stream_hive_cont.Stream.Steps.{Call, invoke, Ran}

module _ {W : Type 0} (host : Invoker W) where
  withdraw-counter :
      (env : Env) (recipient : Address) (id : ℕ) (amount : ℤ) (w w' : World W)
      → withdraw host env recipient id amount w ≡ ok (tt, w')
      → current_id w' ≡ current_id w
  withdraw-counter env recipient id amount w w' run =
      let (s, d) = withdraw_ok host env recipient id amount w w' run in
      let (a, v, p, n, f, t) = d.others_kept in rw n refl

  invoke-counter :
      (env : Env) (c : Call) (w w' : World W)
      → invoke host env c w ≡ ok (tt, w')
      → current_id w ≤ u64_max
      → current_id w' ≤ u64_max
  unfolding invoke initialize pause unpause transfer_admin
  invoke-counter env (Call.initialize admin vault) w w' run h = ground arith
  invoke-counter env Call.pause w w' run h = ground arith
  invoke-counter env Call.unpause w w' run h = ground arith
  invoke-counter env (Call.transfer_admin a) w w' run h = ground arith
  invoke-counter env (Call.create_stream sender recipient token total first last cliff cancellable)
        w w' run h =
      let (id, run') =
        discard_ok
          (create_stream host env sender recipient token total first last cliff cancellable) w w'
          run in
      let d =
        create_stream_ok host env sender recipient token total first last cliff cancellable id w w'
          run' in
      rw d.id_set (omega (arith, d.id_fits, d.fresh_id))
  invoke-counter env (Call.withdraw recipient id amount) w w' run h =
      rw (withdraw-counter env recipient id amount w w' run) h
  invoke-counter env (Call.withdraw_max recipient id) w w' run h =
      let (amount, run') = discard_ok (withdraw_max host env recipient id) w w' run in
      elim (withdraw_max_ok host env recipient id amount w w' run') [
        | inl (none_left, same) ↦ rw same h
        | inr taken ↦ rw (withdraw-counter env recipient id amount w w' taken) h
      ]
  invoke-counter env (Call.cancel_stream sender id) w w' run h =
      let (s, streamed, d) = cancel_stream_ok host env sender id w w' run in
      let (a, v, p, n, f, t) = d.others_kept in rw n h

  pub Ran-counter : (o : W) (w : World W) → Ran host o w → current_id w ≤ u64_max
  Ran-counter o _ Ran.start = omega arith
  Ran-counter o _ (Ran.call {w} r env c) =
      commit_elim (λ w'. current_id w' ≤ u64_max) w (invoke host env c w) (Ran-counter o w r)
        (λ w' run. invoke-counter env c w w' run (Ran-counter o w r))
  Ran-counter o _ (Ran.elsewhere {w} r o') = Ran-counter o w r

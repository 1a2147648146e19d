-- ===== src/Stream/Access.antt =====
-- Who can change a stream, create one, and change the configuration.
use stellar_stream_hive_cont.Base.{
  ℕ, ◌≡◌, refl, ◌∙◌, ap, true, Option, none, some, ◌==◌, inl, inr, arith, Bool-cases, ==→eq,
}
use stellar_stream_hive_cont.Base.Int.{ℤ, pos, ◌+ℤ◌, ◌≤ℤ◌}
use stellar_stream_hive_cont.Base.Dict.{lookup, insert, lookup-insert}
use stellar_stream_hive_cont.Host.{Env, Address, ok, commit, commit_elim}
use stellar_stream_hive_cont.Host.Invoke.{Invoker}
use stellar_stream_hive_cont.Stream.Types.{Stream}
use stellar_stream_hive_cont.Stream.Storage.{World}
use stellar_stream_hive_cont.Stream.Contract.{
  initialize, pause, unpause, transfer_admin, create_stream, withdraw, withdraw_max,
}
use stellar_stream_hive_cont.Stream.Effects.{create_stream_ok, withdraw_ok}
use stellar_stream_hive_cont.Stream.CancelEffect.{stopped, cancel_stream_ok}
use stellar_stream_hive_cont.Stream.Reach.{withdraw_max_ok, discard_ok}
use stellar_stream_hive_cont.Stream.Steps.{Call, invoke, Ran}
use stellar_stream_hive_cont.Stream.Listing.{IsListed, Ran-IsListed, unissued}

-- How a call may change what is stored under one id.
pub data Permitted (env : Env) : Option Stream → Option Stream → Type 0 where
  untouched : {o : Option Stream} → Permitted env o o
  creates :
      {s : Stream}
      → env.authorizes s.sender ≡ true
      → s.withdrawn ≡ pos 0
      → Permitted env none (some s)
  withdraws :
      {s : Stream} (amount : ℤ)
      → env.authorizes s.recipient ≡ true
      → pos 1 ≤ℤ amount
      → Permitted env (some s) (some (record s { withdrawn = s.withdrawn +ℤ amount }))
  cancels :
      {s : Stream}
      → env.authorizes s.sender ≡ true
      → s.cancellable ≡ true
      → Permitted env (some s) (some (stopped s env.sequence))

module _ {W : Type 0} where
  -- One entry is written.
  written-Permitted :
      (env : Env) (id key : ℕ) (o : Option Stream) (x : Stream) (w w' : World W)
      → lookup key w.streams ≡ o
      → w'.streams ≡ insert key x w.streams
      → Permitted env o (some x)
      → Permitted env (lookup id w.streams) (lookup id w'.streams)
  written-Permitted env id key o x w w' e stored p =
      rw (stored, lookup-insert id key x w.streams)
        (elim (Bool-cases (id == key)) [
          | inl same ↦ rw (same, ==→eq id key same, e) p
          | inr other ↦ rw other untouched
        ])

  kept-Permitted :
      (env : Env) (id : ℕ) (w w' : World W)
      → w'.streams ≡ w.streams
      → Permitted env (lookup id w.streams) (lookup id w'.streams)
  kept-Permitted env id w w' e = rw e untouched

module _ {W : Type 0} (host : Invoker W) where
  withdraw-Permitted :
      (env : Env) (recipient : Address) (key : ℕ) (amount : ℤ) (id : ℕ) (w w' : World W)
      → IsListed w
      → withdraw host env recipient key amount w ≡ ok (tt, w')
      → Permitted env (lookup id w.streams) (lookup id w'.streams)
  withdraw-Permitted env recipient key amount id w w' v run =
      let (r, d) = withdraw_ok host env recipient key amount w w' run in
      let stored =
        d.stored
        ∙ ap (λ k. insert k (record r { withdrawn = r.withdrawn +ℤ amount }) w.streams)
            (v.keyed key r d.found) in
      written-Permitted env id key (some r) _ w w' d.found stored
        (withdraws amount (rw d.owned d.signed) d.positive)

  invoke-Permitted :
      (env : Env) (c : Call) (id : ℕ) (w w' : World W)
      → IsListed w
      → invoke host env c w ≡ ok (tt, w')
      → Permitted env (lookup id w.streams) (lookup id w'.streams)
  unfolding invoke initialize pause unpause transfer_admin
  invoke-Permitted env (Call.initialize admin vault) id w w' v run =
      kept-Permitted env id w w' (ground arith)
  invoke-Permitted env Call.pause id w w' v run = kept-Permitted env id w w' (ground arith)
  invoke-Permitted env Call.unpause id w w' v run = kept-Permitted env id w w' (ground arith)
  invoke-Permitted env (Call.transfer_admin a) id w w' v run =
      kept-Permitted env id w w' (ground arith)
  invoke-Permitted env
        (Call.create_stream sender recipient token total first last cliff cancellable) id w w' v
        run =
      let (new, run') =
        discard_ok
          (create_stream host env sender recipient token total first last cliff cancellable) w w'
          run in
      let d =
        create_stream_ok host env sender recipient token total first last cliff cancellable new w w'
          run' in
      let unused = unissued w v in
      let free = rw (← d.fresh_id) at unused in
      written-Permitted env id new none _ w w' free d.stored (creates d.signed refl)
  invoke-Permitted env (Call.withdraw recipient key amount) id w w' v run =
      withdraw-Permitted env recipient key amount id w w' v run
  invoke-Permitted env (Call.withdraw_max recipient key) id w w' v run =
      let (amount, run') = discard_ok (withdraw_max host env recipient key) w w' run in
      elim (withdraw_max_ok host env recipient key amount w w' run') [
        | inl (none_left, same) ↦ kept-Permitted env id w w' (rw same refl)
        | inr taken ↦ withdraw-Permitted env recipient key amount id w w' v taken
      ]
  invoke-Permitted env (Call.cancel_stream sender key) id w w' v run =
      let (r, streamed, d) = cancel_stream_ok host env sender key w w' run in
      let stored =
        d.stored ∙ ap (λ k. insert k (stopped r env.sequence) w.streams) (v.keyed key r d.found) in
      written-Permitted env id key (some r) _ w w' d.found stored
        (cancels (rw d.owned d.signed) d.permitted)

  -- In every state that the contract can reach from its deployment, whatever is called: what is
  -- stored under an id stays as it is, or a new stream is stored there whose sender has authorized
  -- the call, or a positive amount is added to what was withdrawn and the recipient has authorized
  -- it, or a cancellable stream is stopped at the current ledger and its sender has authorized it.
  pub stream_changes-Permitted :
      (o : W) (env : Env) (c : Call) (id : ℕ) (w : World W)
      → Ran host o w
      → Permitted env (lookup id w.streams) (lookup id (commit w (invoke host env c w)).streams)
  stream_changes-Permitted o env c id w r =
      commit_elim (λ w'. Permitted env (lookup id w.streams) (lookup id w'.streams)) w
        (invoke host env c w) untouched
        (λ w' run. invoke-Permitted env c id w w' (Ran-IsListed host o w r) run)

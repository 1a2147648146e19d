-- ===== src/Stream/Conservation.antt =====
-- What the vault holds for a stream and what the stream can still pay out change together.
use stellar_stream_hive_cont.Base.{
  ℕ, ◌≡◌, refl, ap, ◌∙◌, inl, inr, false, Option, none, some, ◌==◌, arith, Bool, Bool-cases, ==→eq,
  ==-refl,
}
use stellar_stream_hive_cont.Base.Int.{ℤ, pos, ◌+ℤ◌, ◌-ℤ◌, int_laws, eq_of_parts}
use stellar_stream_hive_cont.Base.Dict.{lookup, insert, lookup-insert}
use stellar_stream_hive_cont.Host.{Env, Address, ok}
use stellar_stream_hive_cont.Host.Invoke.{Invoker}
use stellar_stream_hive_cont.Stream.Types.{Stream}
use stellar_stream_hive_cont.Stream.Storage.{World}
use stellar_stream_hive_cont.Stream.Contract.{
  initialize, pause, unpause, transfer_admin, create_stream, withdraw, withdraw_max, cancel_stream,
}
use stellar_stream_hive_cont.Stream.VaultLaws.{IsVault}
use stellar_stream_hive_cont.Stream.Entitled.{live-status}
use stellar_stream_hive_cont.Stream.Effects.{create_stream_ok, withdraw_ok}
use stellar_stream_hive_cont.Stream.CancelEffect.{stopped, cancel_stream_ok}
use stellar_stream_hive_cont.Stream.CancelSolvency.{outstanding-stopped, outstanding-live}
use stellar_stream_hive_cont.Stream.Solvency.{IsSolvent, outstanding, configured_is}
use stellar_stream_hive_cont.Stream.Reach.{withdraw_max_ok, discard_ok}
use stellar_stream_hive_cont.Stream.Steps.{Call, invoke}
use stellar_stream_hive_cont.Stream.Listing.{IsListed, unissued}

-- What is due to the parties of what is stored under an id.
abbrev pub due : Option Stream → ℤ
due none = pos 0
due (some s) = outstanding s

module _ {W : Type 0} (host : Invoker W) (vault : Address) (laws : IsVault host vault) where
  -- What the vault holds for an id beyond what is due.
  abbrev pub surplus : ℕ → World W → ℤ
  surplus id w = laws.balance id w.outside -ℤ due (lookup id w.streams)

  -- One stream is written, and its balance changes with it.
  written-surplus :
      (key id : ℕ) (x : Stream) (w w' : World W)
      → w'.streams ≡ insert key x w.streams
      → ((i : ℕ) → (i == key) ≡ false → laws.balance i w'.outside ≡ laws.balance i w.outside)
      → laws.balance key w'.outside -ℤ outstanding x ≡ surplus key w
      → surplus id w' ≡ surplus id w
  written-surplus key id x w w' stored others own = elim (Bool-cases (id == key)) [
    | inl same ↦ rw (stored, lookup-insert id key x w.streams, same, ==→eq id key same) own
    | inr other ↦ rw (stored, lookup-insert id key x w.streams, other, others id other) refl
  ]

  create_stream-surplus :
      (env : Env) (sender recipient token : Address) (total : ℤ) (first last cliff : ℕ)
      (cancellable : Bool) (key now id : ℕ) (w w' : World W)
      → IsSolvent host vault laws now w
      → IsListed w
      → create_stream host env sender recipient token total first last cliff cancellable w
        ≡ ok (key, w')
      → surplus id w' ≡ surplus id w
  create_stream-surplus env sender recipient token total first last cliff cancellable key now id w
        w' v l run =
      let d =
        create_stream_ok host env sender recipient token total first last cliff cancellable key w w'
          run in
      let (u, at, paid) = d.funded in
      let (adds, _, _) =
        laws.deposit_adds env sender token total key w.outside w'.outside
          (rw (configured_is host vault laws u w v.configured at) at paid) in
      let unused = unissued w l in
      let free : lookup key w.streams ≡ none = rw (← d.fresh_id) at unused in
      written-surplus key id _ w w' d.stored (λ i other. rw (adds i, other) refl)
        (rw (adds key, ==-refl key, free) (eq_of_parts _ _ (omega int_laws)))

  withdraw-surplus :
      (env : Env) (recipient : Address) (key : ℕ) (amount : ℤ) (now id : ℕ) (w w' : World W)
      → IsSolvent host vault laws now w
      → withdraw host env recipient key amount w ≡ ok (tt, w')
      → surplus id w' ≡ surplus id w
  withdraw-surplus env recipient key amount now id w w' v run =
      let (s, d) = withdraw_ok host env recipient key amount w w' run in
      let (u, at, paid) = d.released in
      let ((covered, takes), _) =
        laws.release_takes env env.current_contract recipient s.token amount key w.outside
          w'.outside (rw (configured_is host vault laws u w v.configured at) at paid) in
      let k = (v.streams key s d.found).good.key in
      let x : Stream = record s { withdrawn = s.withdrawn +ℤ amount } in
      written-surplus key id x w w' (d.stored ∙ ap (λ n. insert n x w.streams) k)
        (λ i other. rw (takes i, other) refl)
        (rw (takes key, ==-refl key, d.found) (eq_of_parts _ _ (omega int_laws)))

  cancel_stream-surplus :
      (env : Env) (sender : Address) (key now id : ℕ) (w w' : World W)
      → IsSolvent host vault laws now w
      → cancel_stream host env sender key w ≡ ok (tt, w')
      → surplus id w' ≡ surplus id w
  cancel_stream-surplus env sender key now id w w' v run =
      let (s, streamed, d) = cancel_stream_ok host env sender key w w' run in
      let n = live-status s env.sequence d.not_stopped in
      let g = (v.streams key s d.found).good in
      let (most, after) = outstanding-stopped s env.sequence streamed g.terms n d.streamed_now in
      let before = outstanding-live s n in
      let stored = d.stored ∙ ap (λ n. insert n (stopped s env.sequence) w.streams) g.key in
      elim d.refunded [
        | inl (none_left, same) ↦
            written-surplus key id _ w w' stored (λ i other. rw same refl)
              (rw (same, d.found, after, before) (eq_of_parts _ _ (omega int_laws)))
        | inr (some_left, (u, at, paid)) ↦
            let ((covered, takes), _) =
              laws.refund_takes env env.current_contract sender s.token (s.total_amount -ℤ streamed)
                key w.outside w'.outside
                (rw (configured_is host vault laws u w v.configured at) at paid) in
            written-surplus key id _ w w' stored (λ i other. rw (takes i, other) refl)
              (rw (takes key, ==-refl key, d.found, after, before)
                (eq_of_parts _ _ (omega int_laws)))
      ]

  kept-surplus :
      (id : ℕ) (w w' : World W)
      → w'.streams ≡ w.streams
      → w'.outside ≡ w.outside
      → surplus id w' ≡ surplus id w
  kept-surplus id w w' e f = rw (e, f) refl

  pub invoke-surplus :
      (env : Env) (c : Call) (now id : ℕ) (w w' : World W)
      → IsSolvent host vault laws now w
      → IsListed w
      → invoke host env c w ≡ ok (tt, w')
      → surplus id w' ≡ surplus id w
  unfolding invoke initialize pause unpause transfer_admin
  invoke-surplus env (Call.initialize admin u) now id w w' v l run =
      kept-surplus id w w' (ground arith) (ground arith)
  invoke-surplus env Call.pause now id w w' v l run =
      kept-surplus id w w' (ground arith) (ground arith)
  invoke-surplus env Call.unpause now id w w' v l run =
      kept-surplus id w w' (ground arith) (ground arith)
  invoke-surplus env (Call.transfer_admin a) now id w w' v l run =
      kept-surplus id w w' (ground arith) (ground arith)
  invoke-surplus env (Call.create_stream sender recipient token total first last cliff cancellable)
        now id w w' v l run =
      let (key, run') =
        discard_ok
          (create_stream host env sender recipient token total first last cliff cancellable) w w'
          run in
      create_stream-surplus env sender recipient token total first last cliff cancellable key now id
        w w' v l run'
  invoke-surplus env (Call.withdraw recipient key amount) now id w w' v l run =
      withdraw-surplus env recipient key amount now id w w' v run
  invoke-surplus env (Call.withdraw_max recipient key) now id w w' v l run =
      let (amount, run') = discard_ok (withdraw_max host env recipient key) w w' run in
      elim (withdraw_max_ok host env recipient key amount w w' run') [
        | inl (none_left, same) ↦ rw same refl
        | inr taken ↦ withdraw-surplus env recipient key amount now id w w' v taken
      ]
  invoke-surplus env (Call.cancel_stream sender key) now id w w' v l run =
      cancel_stream-surplus env sender key now id w w' v run

-- ===== src/Stream/Lifecycle.antt =====
-- What each call of the stream contract makes of a stored stream.
use stellar_stream_hive_cont.Base.{
  ℕ, ◌+◌, ◌≤◌, ◌≡◌, refl, ◌∙◌, sym, ap, some, ◌==◌, inl, inr, arith, Bool-cases, ==→eq,
}
use mathlib.Core.Option.{some-injective}
use stellar_stream_hive_cont.Base.Int.{ℤ}
use stellar_stream_hive_cont.Base.Dict.{lookup, insert, lookup-insert}
use stellar_stream_hive_cont.Host.{Env, Address, ok}
use stellar_stream_hive_cont.Host.Invoke.{Invoker}
use stellar_stream_hive_cont.Stream.Types.{Stream}
use stellar_stream_hive_cont.Stream.Storage.{World, current_id}
use stellar_stream_hive_cont.Stream.Contract.{
  initialize, pause, unpause, transfer_admin, create_stream, withdraw, withdraw_max,
}
use stellar_stream_hive_cont.Stream.Effects.{create_stream_ok, withdraw_ok}
use stellar_stream_hive_cont.Stream.CancelEffect.{cancel_stream_ok}
use stellar_stream_hive_cont.Stream.Reach.{withdraw_max_ok, discard_ok}
use stellar_stream_hive_cont.Stream.Steps.{Call, invoke}
use stellar_stream_hive_cont.Stream.Listing.{IsListed}
use stellar_stream_hive_cont.Stream.Diagram.{
  Follows, withdrawn-Follows, stopped-Follows, same-Follows,
}

module _ {W : Type 0} where
  -- What has become of the stream under `id`.
  abbrev pub Continues : ℕ → ℕ → ℕ → Stream → World W → Type 0
  Continues id now later s w =
      (s' : Stream) × (lookup id w.streams ≡ some s') × Follows now later s s'

  replaced-Continues :
      (id now later : ℕ) (s r x : Stream) (key : ℕ) (w w' : World W)
      → now ≤ later
      → lookup id w.streams ≡ some s
      → lookup key w.streams ≡ some r
      → r.id ≡ key
      → w'.streams ≡ insert r.id x w.streams
      → Follows now later r x
      → Continues id now later s w'
  replaced-Continues id now later s r x key w w' h e f k stored step =
      elim (Bool-cases (id == key)) [
        | inl same ↦
            let q : s ≡ r =
              some-injective _ _ (sym e ∙ ap (λ i. lookup i w.streams) (==→eq id key same) ∙ f) in
            (x, rw (stored, k, lookup-insert id key x w.streams, same) refl, rw q step)
        | inr other ↦ (
          s,
          rw (stored, k, lookup-insert id key x w.streams, other) e,
          same-Follows s now later h,
        )
      ]

  kept-Continues :
      (id now later : ℕ) (s : Stream) (w w' : World W)
      → now ≤ later
      → lookup id w.streams ≡ some s
      → w'.streams ≡ w.streams
      → Continues id now later s w'
  kept-Continues id now later s w w' h e q = (s, rw q e, same-Follows s now later h)

module _ {W : Type 0} (host : Invoker W) where
  withdraw-Continues :
      (env : Env) (recipient : Address) (key : ℕ) (amount : ℤ) (id now : ℕ) (s : Stream)
      (w w' : World W)
      → now ≤ env.sequence
      → IsListed w
      → lookup id w.streams ≡ some s
      → withdraw host env recipient key amount w ≡ ok (tt, w')
      → Continues id now env.sequence s w'
  withdraw-Continues env recipient key amount id now s w w' h v e run =
      let (r, d) = withdraw_ok host env recipient key amount w w' run in
      replaced-Continues id now env.sequence s r _ key w w' h e d.found (v.keyed key r d.found)
        d.stored (withdrawn-Follows r amount now env.sequence h d.positive)

  pub invoke-Continues :
      (env : Env) (c : Call) (id now : ℕ) (s : Stream) (w w' : World W)
      → now ≤ env.sequence
      → IsListed w
      → lookup id w.streams ≡ some s
      → invoke host env c w ≡ ok (tt, w')
      → Continues id now env.sequence s w'
  unfolding invoke initialize pause unpause transfer_admin
  invoke-Continues env (Call.initialize admin vault) id now s w w' h v e run =
      kept-Continues id now env.sequence s w w' h e (ground arith)
  invoke-Continues env Call.pause id now s w w' h v e run =
      kept-Continues id now env.sequence s w w' h e (ground arith)
  invoke-Continues env Call.unpause id now s w w' h v e run =
      kept-Continues id now env.sequence s w w' h e (ground arith)
  invoke-Continues env (Call.transfer_admin a) id now s w w' h v e run =
      kept-Continues id now env.sequence s w w' h e (ground arith)
  invoke-Continues env
        (Call.create_stream sender recipient token total first last cliff cancellable) id now s w w'
        h v e run =
      let (new, run') =
        discard_ok
          (create_stream host env sender recipient token total first last cliff cancellable) w w'
          run in
      let d =
        create_stream_ok host env sender recipient token total first last cliff cancellable new w w'
          run' in
      let below = v.issued id s e in
      (
        s,
        rw (d.stored, d.fresh_id, lookup-insert id (current_id w + 1) _ w.streams)
            (ground (arith, below, e)),
        same-Follows s now env.sequence h,
      )
  invoke-Continues env (Call.withdraw recipient key amount) id now s w w' h v e run =
      withdraw-Continues env recipient key amount id now s w w' h v e run
  invoke-Continues env (Call.withdraw_max recipient key) id now s w w' h v e run =
      let (amount, run') = discard_ok (withdraw_max host env recipient key) w w' run in
      elim (withdraw_max_ok host env recipient key amount w w' run') [
        | inl (none_left, same) ↦ kept-Continues id now env.sequence s w w' h e (rw same refl)
        | inr taken ↦ withdraw-Continues env recipient key amount id now s w w' h v e taken
      ]
  invoke-Continues env (Call.cancel_stream sender key) id now s w w' h v e run =
      let (r, streamed, d) = cancel_stream_ok host env sender key w w' run in
      replaced-Continues id now env.sequence s r _ key w w' h e d.found (v.keyed key r d.found)
        d.stored (stopped-Follows r now env.sequence h d.not_stopped d.not_done)

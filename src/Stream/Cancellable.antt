-- ===== src/Stream/Cancellable.antt =====
-- When a cancellation goes through, and how it splits the deposit.
use stellar_stream_hive_cont.Base.{ℕ, ◌*◌, ◌≤◌, ◌<◌, ◌≡◌, ◌≢◌, ◌∙◌, ap, true, some, ◌∷◌, arith}
use stellar_stream_hive_cont.Base.Int.{
  ℤ, pos, pos_part, ◌+ℤ◌, ◌-ℤ◌, ◌≤ℤ◌, checked_sub, checked_sub_fits, -ℤ_IsI128, int_laws,
  parts_apart, eq_of_parts,
}
use stellar_stream_hive_cont.Base.Dict.{lookup, insert}
use stellar_stream_hive_cont.Host.{Env, Address, ok}
use stellar_stream_hive_cont.Host.Invoke.{Invoker}
use stellar_stream_hive_cont.Stream.Types.{Stream, StreamEvent, cancelled, completed}
use stellar_stream_hive_cont.Stream.Storage.{World}
use stellar_stream_hive_cont.Stream.VaultClient
use stellar_stream_hive_cont.Stream.Contract.{cancel_stream}
use stellar_stream_hive_cont.Stream.Math.{streamed_amount, withdrawable_amount, compute_status}
use stellar_stream_hive_cont.Stream.Accrual.{
  IsWellFormed, HasRoom, elapsed, duration, share, share_floor, streamed_amount-earned,
}
use stellar_stream_hive_cont.Stream.CancelEffect.{stopped}
use stellar_stream_hive_cont.Stream.CancelSolvency.{stopped-IsWellFormed}
use stellar_stream_hive_cont.Stream.Entitled.{entitled, entitled-le, earned-stopped}
use stellar_stream_hive_cont.Stream.Withdrawable.{claimable, withdrawable_amount-claimable}
use stellar_stream_hive_cont.Stream.Solvency.{IsGood}
use stellar_stream_hive_cont.Stream.Available.{claimable-entitled}

floor_below : (a e d q : ℕ) → 1 ≤ a → e < d → q * d ≤ a * e → q < a
floor_below a e d q h k m = grind arith

-- Before the end the share is less than the deposit.
share-lt :
    (s : Stream) (now : ℕ)
    → IsWellFormed s
    → now < s.end_ledger
    → share s now < pos_part s.total_amount
share-lt s now v h =
    floor_below (pos_part s.total_amount) (elapsed s now) (duration s) (share s now)
      (omega (arith, v.positive)) (omega (arith, v.ends_later)) (share_floor s now v).0

pub entitled-lt :
    (s : Stream) (now : ℕ)
    → IsWellFormed s
    → s.status ≢ cancelled
    → now < s.end_ledger
    → entitled s now < pos_part s.total_amount
entitled-lt s now v n h = ground (arith, share-lt s now v h, v.positive)

live_before :
    (s : Stream) (now : ℕ)
    → s.status ≢ cancelled
    → now < s.end_ledger
    → compute_status s now ≢ cancelled
unfolding compute_status
live_before s now n h = ground arith

open_before :
    (s : Stream) (now : ℕ)
    → s.status ≢ cancelled
    → now < s.end_ledger
    → compute_status s now ≢ completed
unfolding compute_status
open_before s now n h = ground arith

-- What is claimable when a stream is stopped stays claimable.
claimable-stopped :
    (s : Stream) (now later : ℕ)
    → s.status ≢ cancelled
    → claimable (stopped s now) later ≡ claimable s now
claimable-stopped s now later n = ground arith

module _ {W : Type 0} (host : Invoker W) where
  guarded_cancel :
      (env : Env) (s : Stream) (id : ℕ) (streamed remainder : ℤ) (vault : Address) (o : W)
      (w : World W)
      → lookup id w.streams ≡ some s
      → env.authorizes s.sender ≡ true
      → s.cancellable ≡ true
      → compute_status s env.sequence ≢ cancelled
      → compute_status s env.sequence ≢ completed
      → streamed_amount (stopped s env.sequence) env.sequence ≡ ok streamed
      → checked_sub s.total_amount streamed ≡ some remainder
      → pos 1 ≤ℤ remainder
      → w.vault ≡ some vault
      → VaultClient.refund host env vault env.current_contract s.sender s.token remainder id
          w.outside
        ≡ some o
      → cancel_stream host env s.sender id w
        ≡ ok (
          tt,
          record w {
            streams = insert s.id (stopped s env.sequence) w.streams;
            outside = o;
            events = StreamEvent.cancel id s.sender streamed remainder ∷ w.events;
          },
        )
  unfolding cancel_stream
  guarded_cancel env s id streamed remainder vault o w e a c live open_ended f g p v r =
      ground arith

  -- A cancellation of a stream before its end goes through if the vault pays the refund, which is all
  -- that the recipient is not entitled to.
  pub cancel_succeeds :
      (env : Env) (s : Stream) (id : ℕ) (vault : Address) (o : W) (w : World W)
      → lookup id w.streams ≡ some s
      → IsGood env.sequence id s
      → HasRoom s
      → env.authorizes s.sender ≡ true
      → s.cancellable ≡ true
      → s.status ≢ cancelled
      → env.sequence < s.end_ledger
      → w.vault ≡ some vault
      → let refund = s.total_amount -ℤ pos (entitled s env.sequence) in
        VaultClient.refund host env vault env.current_contract s.sender s.token refund id w.outside
          ≡ some o
        → cancel_stream host env s.sender id w
          ≡ ok (
            tt,
            record w {
              streams = insert s.id (stopped s env.sequence) w.streams;
              outside = o;
              events =
                  StreamEvent.cancel id s.sender
                    (pos (entitled s env.sequence))
                    (s.total_amount -ℤ pos (entitled s env.sequence))
                  ∷ w.events;
            },
          )
  cancel_succeeds env s id vault o w e g r a c n h v paid =
      let now = env.sequence in
      let below = entitled-lt s now g.terms n h in
      let fits = g.terms.fits in
      guarded_cancel env s id (pos (entitled s now)) (s.total_amount -ℤ pos (entitled s now)) vault
        o w e a c (live_before s now n h) (open_before s now n h)
        (streamed_amount-earned (stopped s now) now (stopped-IsWellFormed s now g.terms) r
          ∙ ap (λ x. ok (pos x)) (earned-stopped s now now n))
        (checked_sub_fits s.total_amount (pos (entitled s now)) (
          -ℤ_IsI128 s.total_amount (pos (entitled s now)) (omega arith) (entitled-le s now g.terms)
            fits))
        (omega (int_laws, parts_apart s.total_amount)) v paid

-- The three parts of the deposit: what the recipient has taken, what is left to take for ever, and
-- what goes back to the sender.
pub stopped-splits :
    (s : Stream) (now later id : ℕ)
    → IsGood now id s
    → HasRoom s
    → s.status ≢ cancelled
    → (withdrawable_amount (stopped s now) later ≡ ok (pos (claimable s now)))
      × (s.withdrawn +ℤ pos (claimable s now) +ℤ (s.total_amount -ℤ pos (entitled s now))
          ≡ s.total_amount)
stopped-splits s now later id g r n =
    let low = g.taken in
    let held = g.granted in
    let most = entitled-le s now g.terms in
    (
      withdrawable_amount-claimable (stopped s now) later (stopped-IsWellFormed s now g.terms) r low
            (omega (arith, parts_apart s.withdrawn, parts_apart s.total_amount))
          ∙ ap (λ x. ok (pos x)) (claimable-stopped s now later n),
      eq_of_parts _ _ (
          omega (
            int_laws,
            claimable-entitled s now,
            parts_apart s.withdrawn,
            parts_apart s.total_amount,
          )),
    )

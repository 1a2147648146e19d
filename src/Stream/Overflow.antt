-- ===== src/Stream/Overflow.antt =====
-- Deposits whose accrual overflows: the bound below which none does, and what happens above it.
use stellar_stream_hive_cont.Base.{ℕ, ◌*◌, ◌^◌, ◌≤◌, ◌<◌, ◌≡◌, ◌≢◌, refl, sym, ◌∙◌, some, arith}
use mathlib.Core.Option.{some-injective}
use stellar_stream_hive_cont.Base.Division.{mul_mono_right}
use stellar_stream_hive_cont.Base.Int.{ℤ, pos, pos_part, ◌≤ℤ◌, i128_max}
use stellar_stream_hive_cont.Base.Dict.{lookup}
use stellar_stream_hive_cont.Base.Pages.{u32_max}
use stellar_stream_hive_cont.Host.{Env, Address, ok, err, commit, commit_elim}
use stellar_stream_hive_cont.Host.Invoke.{Invoker}
use stellar_stream_hive_cont.Stream.Types.{Stream, cancelled, math_overflow}
use stellar_stream_hive_cont.Stream.Storage.{World}
use stellar_stream_hive_cont.Stream.Contract.{withdraw, withdraw_max, cancel_stream}
use stellar_stream_hive_cont.Stream.Math.{streamed_amount, withdrawable_amount, unwithdrawn}
use stellar_stream_hive_cont.Stream.Accrual.{
  IsWellFormed, HasRoom, elapsed, duration, earned, earned-le, streamed_amount-share,
  streamed_amount-earned,
}
use stellar_stream_hive_cont.Stream.CancelEffect.{stopped, cancel_stream_ok}
use stellar_stream_hive_cont.Stream.CancelSolvency.{stopped-IsWellFormed}
use stellar_stream_hive_cont.Stream.Effects.{withdraw_ok}
use stellar_stream_hive_cont.Stream.Reach.{discard_ok}
use stellar_stream_hive_cont.Stream.Steps.{Call, invoke}

product_bound : (a d : ℕ) → a < 2 ^ 95 → d ≤ u32_max → a * d ≤ i128_max
product_bound a d h k = grind arith

-- For a stream with admitted terms whose deposit is below 2^95 and whose end is a u32, the accrual
-- never overflows, at any ledger: it is what has been earned, an i128 between nothing and the
-- deposit.
pub streamed_amount-bounded :
    (s : Stream) (now : ℕ)
    → IsWellFormed s
    → pos_part s.total_amount < 2 ^ 95
    → s.end_ledger ≤ u32_max
    → HasRoom s
      × (streamed_amount s now ≡ ok (pos (earned s now)))
      × (pos (earned s now) ≤ℤ s.total_amount)
streamed_amount-bounded s now v h k =
    let r : HasRoom s = product_bound (pos_part s.total_amount) (duration s) h (omega arith) in
    (r, streamed_amount-earned s now v r, earned-le s now v)

-- The accrual overflows once, and from then on.
streamed_overflows :
    (s : Stream) (now later : ℕ)
    → IsWellFormed s
    → s.status ≢ cancelled
    → i128_max < pos_part s.total_amount * elapsed s now
    → now ≤ later
    → streamed_amount s later ≡ err math_overflow
streamed_overflows s now later v n h l =
    let more =
      mul_mono_right (pos_part s.total_amount) (elapsed s now) (elapsed s later) (omega arith) in
    streamed_amount-share s later v ∙ ground (arith, more)

-- Also for the stream stopped then, after its cliff.
stopped_overflows :
    (s : Stream) (now later : ℕ)
    → IsWellFormed s
    → i128_max < pos_part s.total_amount * elapsed s now
    → now ≤ later
    → s.cliff_ledger ≤ later
    → streamed_amount (stopped s later) later ≡ err math_overflow
stopped_overflows s now later v h l c =
    let more =
      mul_mono_right (pos_part s.total_amount) (elapsed s now) (elapsed s later) (omega arith) in
    streamed_amount-share (stopped s later) later (stopped-IsWellFormed s later v)
    ∙ ground (arith, more)

withdrawable_overflows :
    (s : Stream) (now : ℕ)
    → s.status ≢ cancelled
    → s.cliff_ledger ≤ now
    → streamed_amount s now ≡ err math_overflow
    → withdrawable_amount s now ≡ err math_overflow
unfolding withdrawable_amount unwithdrawn
withdrawable_overflows s now n c e = ground arith

module _ {W : Type 0} (host : Invoker W) where
  withdraw_stuck :
      (env : Env) (a : Address) (id : ℕ) (amount : ℤ) (s : Stream) (w w' : World W)
      → lookup id w.streams ≡ some s
      → withdrawable_amount s env.sequence ≡ err math_overflow
      → withdraw host env a id amount w ≢ ok (tt, w')
  withdraw_stuck env a id amount s w w' e f run =
      let (r, d) = withdraw_ok host env a id amount w w' run in
      let (available, g, le) = d.allowed in
      let same : r ≡ s = some-injective _ _ (sym d.found ∙ e) in
      let g' = rw same at g in absurd (ground arith)

  cancel_stuck :
      (env : Env) (a : Address) (id : ℕ) (s : Stream) (w w' : World W)
      → lookup id w.streams ≡ some s
      → streamed_amount (stopped s env.sequence) env.sequence ≡ err math_overflow
      → cancel_stream host env a id w ≢ ok (tt, w')
  cancel_stuck env a id s w w' e f run =
      let (r, streamed, d) = cancel_stream_ok host env a id w w' run in
      let same : r ≡ s = some-injective _ _ (sym d.found ∙ e) in
      let g = d.streamed_now in let g' = rw same at g in absurd (ground arith)

  -- The calls that pay out of one stream.
  pub data PaysFrom (id : ℕ) : Call → Type 0 where
    withdraws : (a : Address) (amount : ℤ) → PaysFrom id (Call.withdraw a id amount)
    withdraws_max : (a : Address) → PaysFrom id (Call.withdraw_max a id)
    cancels : (a : Address) → PaysFrom id (Call.cancel_stream a id)

  withdraw_max_stuck :
      (env : Env) (a : Address) (id : ℕ) (s : Stream) (w w' : World W) (amount : ℤ)
      → lookup id w.streams ≡ some s
      → withdrawable_amount s env.sequence ≡ err math_overflow
      → withdraw_max host env a id w ≢ ok (amount, w')
  unfolding withdraw_max
  withdraw_max_stuck env a id s w w' amount e f run = ground arith

  no_payout :
      (env : Env) (c : Call) (id : ℕ) (s : Stream) (w w' : World W)
      → PaysFrom id c
      → lookup id w.streams ≡ some s
      → withdrawable_amount s env.sequence ≡ err math_overflow
      → streamed_amount (stopped s env.sequence) env.sequence ≡ err math_overflow
      → invoke host env c w ≢ ok (tt, w')
  unfolding invoke
  no_payout env _ id s w w' (withdraws a amount) e f g run =
      withdraw_stuck env a id amount s w w' e f run
  no_payout env _ id s w w' (withdraws_max a) e f g run =
      let (amount, run') = discard_ok (withdraw_max host env a id) w w' run in
      withdraw_max_stuck env a id s w w' amount e f run'
  no_payout env _ id s w w' (cancels a) e f g run = cancel_stuck env a id s w w' e g run

  -- A stored stream with admitted terms that was not cancelled, whose deposit times the ledgers
  -- elapsed at `now` is no i128: at that ledger and at every later one from the cliff on, no
  -- withdrawal from it and no cancellation of it changes the state, whoever calls.
  pub overflow_stuck :
      (env : Env) (c : Call) (id now : ℕ) (s : Stream) (w : World W)
      → PaysFrom id c
      → lookup id w.streams ≡ some s
      → IsWellFormed s
      → s.status ≢ cancelled
      → i128_max < pos_part s.total_amount * elapsed s now
      → now ≤ env.sequence
      → s.cliff_ledger ≤ env.sequence
      → commit w (invoke host env c w) ≡ w
  overflow_stuck env c id now s w p e v n h l k =
      let f =
        withdrawable_overflows s env.sequence n k (streamed_overflows s now env.sequence v n h l) in
      let g = stopped_overflows s now env.sequence v h l k in
      commit_elim (λ w'. w' ≡ w) w (invoke host env c w) refl
        (λ w' run. absurd (no_payout env c id s w w' p e f g run))

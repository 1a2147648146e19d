-- ===== src/Stream/Withdrawable.antt =====
-- What `withdrawable_amount` and `compute_status` answer, for the streams that `create_stream`
-- admits.
use stellar_stream_hive_cont.Base.{ℕ, ◌-◌, ◌≤◌, ◌<◌, ◌≡◌, ◌≢◌, ◌&&◌, not, arith, ltb, if◌then◌else◌}
use stellar_stream_hive_cont.Base.Int.{pos, pos_part, ◌+ℤ◌, ◌≤ℤ◌, checked_sub, -ℤ_pos, +ℤ_pos}
use stellar_stream_hive_cont.Host.Results.{ok}
use stellar_stream_hive_cont.Stream.Types.{Stream, pending, completed, cancelled}
use stellar_stream_hive_cont.Stream.Math.{
  is_cancelled, streamed_amount, withdrawable_amount, compute_status, unwithdrawn,
}
use stellar_stream_hive_cont.Stream.Accrual.{
  IsWellFormed, HasRoom, earned, earned-le, streamed_amount-earned, streamed_amount-start,
  streamed_amount-end, share_mono,
}

-- The amount that the recipient may take: nothing before the cliff of a stream that runs, and else
-- what has been earned and not been taken.
abbrev pub claimable : Stream → ℕ → ℕ
claimable s now =
    if ltb now s.cliff_ledger && not (is_cancelled s)
    then 0
    else earned s now - pos_part s.withdrawn

unwithdrawn-earned :
    (s : Stream) (now : ℕ)
    → IsWellFormed s
    → HasRoom s
    → pos 0 ≤ℤ s.withdrawn
    → s.withdrawn ≤ℤ s.total_amount
    → unwithdrawn s now ≡ ok (pos (earned s now - pos_part s.withdrawn))
unfolding unwithdrawn checked_sub
unwithdrawn-earned s now v r p h =
    rw (streamed_amount-earned s now v r, -ℤ_pos (earned s now) s.withdrawn p)
      (ground (arith, earned-le s now v))

-- For an admitted stream with room for its products, of which no more than the deposit has been
-- withdrawn, `withdrawable_amount` never fails: it is zero before the cliff, unless the stream was
-- cancelled, and else the earned amount less what has been withdrawn, or zero where more has been
-- withdrawn.
pub withdrawable_amount-claimable :
    (s : Stream) (now : ℕ)
    → IsWellFormed s
    → HasRoom s
    → pos 0 ≤ℤ s.withdrawn
    → s.withdrawn ≤ℤ s.total_amount
    → withdrawable_amount s now ≡ ok (pos (claimable s now))
unfolding withdrawable_amount
withdrawable_amount-claimable s now v r p h = ground (arith, unwithdrawn-earned s now v r p h)

-- A recipient never gets more than the deposit.
pub claimable-le :
    (s : Stream) (now : ℕ)
    → IsWellFormed s
    → pos 0 ≤ℤ s.withdrawn
    → s.withdrawn ≤ℤ s.total_amount
    → s.withdrawn +ℤ pos (claimable s now) ≤ℤ s.total_amount
claimable-le s now v p h = ground (arith, earned-le s now v, +ℤ_pos s.withdrawn (claimable s now) p)

-- Later ledgers never lower what has been earned.
pub earned_mono : (s : Stream) (n m : ℕ) → IsWellFormed s → n ≤ m → earned s n ≤ earned s m
earned_mono s n m v h = ground (arith, share_mono s n m v h)

-- The status follows the ledger and agrees with the accrual: it is `cancelled` exactly when that is
-- stored, otherwise `pending` exactly before the start, when nothing has streamed, and `completed`
-- exactly from the end on, when the whole deposit has.
pub compute_status-streamed :
    (s : Stream) (now : ℕ)
    → IsWellFormed s
    → HasRoom s
    → (compute_status s now ≡ cancelled → s.status ≡ cancelled)
      × (s.status ≡ cancelled → compute_status s now ≡ cancelled)
      × (s.status ≢ cancelled
          → (now < s.start_ledger → compute_status s now ≡ pending)
            × (compute_status s now ≡ pending
                → (now < s.start_ledger) × (streamed_amount s now ≡ ok (pos 0)))
            × (s.end_ledger ≤ now → compute_status s now ≡ completed)
            × (compute_status s now ≡ completed
                → (s.end_ledger ≤ now) × (streamed_amount s now ≡ ok s.total_amount)))
unfolding compute_status
compute_status-streamed s now v r = (
  λ h. ground arith,
  λ h. ground arith,
  λ n. (
    λ h. ground arith,
    λ h. ground (arith, streamed_amount-start s now n),
    λ h. ground arith,
    λ h. ground (arith, streamed_amount-end s now v r n),
  ),
)

-- Once cancelled, a stream's accrual and what its recipient may take no longer depend on the ledger.
pub cancelled_frozen :
    (s : Stream) (n m : ℕ)
    → s.status ≡ cancelled
    → (streamed_amount s n ≡ streamed_amount s m)
      × (withdrawable_amount s n ≡ withdrawable_amount s m)
unfolding streamed_amount withdrawable_amount unwithdrawn
cancelled_frozen s n m h = (ground arith, ground arith)

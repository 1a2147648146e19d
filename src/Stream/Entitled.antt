-- ===== src/Stream/Entitled.antt =====
-- What a recipient is entitled to at a ledger, in all, and how withdrawals and cancellations keep
-- to it. Here no room for the products is assumed: the operations that succeed have found it.
use stellar_stream_hive_cont.Base.{
  ℕ, ◌-◌, ◌≤◌, ◌≡◌, ◌≢◌, ap, ◌∙◌, inl, inr, ◌&&◌, not, arith, ltb, if◌then◌else◌,
}
use stellar_stream_hive_cont.Base.Int.{
  ℤ, pos, pos_part, ◌+ℤ◌, ◌≤ℤ◌, checked_sub, -ℤ_pos, +ℤ_nonneg, parts_apart,
}
use stellar_stream_hive_cont.Host.Results.{ok, Outcome-cases}
use stellar_stream_hive_cont.Stream.Types.{Stream, cancelled}
use stellar_stream_hive_cont.Stream.Math.{
  is_cancelled, streamed_amount, withdrawable_amount, unwithdrawn, compute_status,
}
use stellar_stream_hive_cont.Stream.Accrual.{IsWellFormed, earned, earned-le, streamed_amount-share}
use stellar_stream_hive_cont.Stream.Withdrawable.{earned_mono}
use stellar_stream_hive_cont.Stream.CancelEffect.{stopped}

-- All that the recipient may have taken by `now`: nothing before the cliff of a stream that runs.
abbrev pub entitled : Stream → ℕ → ℕ
entitled s now = if ltb now s.cliff_ledger && not (is_cancelled s) then 0 else earned s now

pub entitled_mono : (s : Stream) (n m : ℕ) → IsWellFormed s → n ≤ m → entitled s n ≤ entitled s m
entitled_mono s n m v h = ground (arith, earned_mono s n m v h)

pub entitled-le : (s : Stream) (now : ℕ) → IsWellFormed s → pos (entitled s now) ≤ℤ s.total_amount
entitled-le s now v = ground (arith, earned-le s now v)

-- An accrual that ends with `ok` is the linear share, whatever the size of the deposit.
pub streamed_amount_ok :
    (s : Stream) (now : ℕ) (a : ℤ)
    → IsWellFormed s
    → streamed_amount s now ≡ ok a
    → a ≡ pos (earned s now)
streamed_amount_ok s now a v h = let q = rw (streamed_amount-share s now v) at h in ground arith

-- What a stream grants when it is stopped is what it granted just before, for ever.
pub entitled-stopped :
    (s : Stream) (now later : ℕ)
    → s.status ≢ cancelled
    → entitled (stopped s now) later ≡ entitled s now
entitled-stopped s now later n = ground arith

unwithdrawn_ok :
    (s : Stream) (now : ℕ) (a : ℤ)
    → IsWellFormed s
    → pos 0 ≤ℤ s.withdrawn
    → unwithdrawn s now ≡ ok a
    → a ≡ pos (earned s now - pos_part s.withdrawn)
unfolding unwithdrawn checked_sub
unwithdrawn_ok s now a v p e = elim (Outcome-cases (streamed_amount s now)) [
  | inl (b, f) ↦
      let q = f ∙ ap ok (streamed_amount_ok s now b v f) in
      let e' = rw (q, -ℤ_pos (earned s now) s.withdrawn p) at e in ground arith
  | inr n ↦ absurd (ground arith)
]

-- What is withdrawable and what was withdrawn are together what the recipient is entitled to.
pub withdrawable_amount_ok :
    (s : Stream) (now : ℕ) (a : ℤ)
    → IsWellFormed s
    → pos 0 ≤ℤ s.withdrawn
    → pos_part s.withdrawn ≤ entitled s now
    → withdrawable_amount s now ≡ ok a
    → a ≡ pos (entitled s now - pos_part s.withdrawn)
unfolding withdrawable_amount
withdrawable_amount_ok s now a v p h e = ground (arith, unwithdrawn_ok s now a v p)

-- A withdrawal of no more than is withdrawable stays within what the recipient is entitled to.
pub withdraw_granted :
    (s : Stream) (now : ℕ) (amount available : ℤ)
    → IsWellFormed s
    → pos 0 ≤ℤ s.withdrawn
    → pos_part s.withdrawn ≤ entitled s now
    → withdrawable_amount s now ≡ ok available
    → pos 1 ≤ℤ amount
    → amount ≤ℤ available
    → (pos 0 ≤ℤ s.withdrawn +ℤ amount) × (pos_part (s.withdrawn +ℤ amount) ≤ entitled s now)
withdraw_granted s now amount available v p g e q h =
    let a = rw (withdrawable_amount_ok s now available v p g e) at h in
    rw (+ℤ_nonneg s.withdrawn amount p (omega arith))
      (omega arith, omega (arith, parts_apart amount))

pub earned-stopped :
    (s : Stream) (now later : ℕ)
    → s.status ≢ cancelled
    → earned (stopped s now) later ≡ entitled s now
earned-stopped s now later n = ground arith

-- A stream that is live is not stored as cancelled.
pub live-status : (s : Stream) (now : ℕ) → compute_status s now ≢ cancelled → s.status ≢ cancelled
unfolding compute_status
live-status s now n h = n (ground arith)

-- ===== src/Stream/Accrual.antt =====
-- What `streamed_amount` computes, for the streams that `create_stream` admits.
use stellar_stream_hive_cont.Base.{
  ℕ, ◌+◌, ◌-◌, ◌*◌, ◌/◌, ◌≤◌, ◌<◌, min, ◌≡◌, ◌≢◌, inl, inr, arith, leb, if◌then◌else◌, Bool-cases,
}
use native.Mathlib.Nat.{mul-zero, zero-div}
use stellar_stream_hive_cont.Base.Division.{
  mul_mono_right, mul-div-le, div_floor, div_mono, mul-div_self,
}
use stellar_stream_hive_cont.Base.Int.{
  pos, pos_part, ◌≤ℤ◌, i128_max, checked_mul-pos, checked_div-pos,
}
use stellar_stream_hive_cont.Host.Results.{ok, err}
use stellar_stream_hive_cont.Stream.Types.{Stream, math_overflow, cancelled}
use stellar_stream_hive_cont.Stream.Math.{
  cancelled_before_cliff, effective_now, accrue, streamed_amount,
}

-- A stream with the terms that `create_stream` has checked.
pub record IsWellFormed (s : Stream) : Type 0 where
  pub positive : pos 1 ≤ℤ s.total_amount
  pub fits : s.total_amount ≤ℤ pos i128_max
  pub ends_later : s.start_ledger < s.end_ledger
  pub cliff_from : s.start_ledger ≤ s.cliff_ledger
  pub cliff_to : s.cliff_ledger ≤ s.end_ledger

-- The ledgers from the start to `now`, up to the end.
abbrev pub elapsed : Stream → ℕ → ℕ
elapsed s now = min now s.end_ledger - s.start_ledger

abbrev pub duration : Stream → ℕ
duration s = s.end_ledger - s.start_ledger

-- The linear share, rounded down.
abbrev pub share : Stream → ℕ → ℕ
share s now = pos_part s.total_amount * elapsed s now / duration s

accrue-share :
    (s : Stream) (now : ℕ)
    → IsWellFormed s
    → accrue s now ≡ (
        if leb (pos_part s.total_amount * elapsed s now) i128_max
        then ok (pos (share s now))
        else err math_overflow)
unfolding accrue
accrue-share s now v = ground (
  arith,
  checked_mul-pos (pos_part s.total_amount) (elapsed s now),
  checked_div-pos (pos_part s.total_amount * elapsed s now) (duration s),
  mul-div-le (pos_part s.total_amount) (elapsed s now) (duration s),
)

-- What a stream has earned at `now`: its share at the ledger at which it stopped, and nothing if
-- that was before its cliff.
abbrev pub earned : Stream → ℕ → ℕ
earned s now = if cancelled_before_cliff s then 0 else share s (effective_now s now)

-- The largest product of the accrual is an i128.
abbrev pub HasRoom : Stream → Type 0
HasRoom s = pos_part s.total_amount * duration s ≤ i128_max

-- The accrual of an admitted stream is its linear share rounded down, or `math_overflow` where the
-- product of the deposit and the elapsed ledgers is no i128; a stream that was cancelled before its
-- cliff has streamed nothing.
pub streamed_amount-share :
    (s : Stream) (now : ℕ)
    → IsWellFormed s
    → streamed_amount s now ≡ (
        if cancelled_before_cliff s
        then ok (pos 0)
        else if leb (pos_part s.total_amount * elapsed s (effective_now s now)) i128_max
        then ok (pos (share s (effective_now s now)))
        else err math_overflow)
unfolding streamed_amount
streamed_amount-share s now v = elim (Bool-cases (leb (effective_now s now) s.start_ledger)) [
  | inl early ↦
      rw early
        (let e : elapsed s (effective_now s now) ≡ 0 = ground arith in rw (e, mul-zero, zero-div))
  | inr late ↦ rw late (ground (arith, accrue-share s (effective_now s now) v))
]

-- With room for the product the accrual never fails.
pub streamed_amount-earned :
    (s : Stream) (now : ℕ)
    → IsWellFormed s
    → HasRoom s
    → streamed_amount s now ≡ ok (pos (earned s now))
streamed_amount-earned s now v r = rw (streamed_amount-share s now v) (
    ground (
      arith,
      mul_mono_right (pos_part s.total_amount) (elapsed s (effective_now s now)) (duration s),
    ))

-- What has streamed lies between nothing and the deposit.
pub earned-le : (s : Stream) (now : ℕ) → IsWellFormed s → pos (earned s now) ≤ℤ s.total_amount
earned-le s now v =
    ground
      (arith, mul-div-le (pos_part s.total_amount) (elapsed s (effective_now s now)) (duration s))

-- Rounding favours the vault, by less than one unit.
pub share_floor :
    (s : Stream) (now : ℕ)
    → IsWellFormed s
    → (share s now * duration s ≤ pos_part s.total_amount * elapsed s now)
      × (pos_part s.total_amount * elapsed s now < (share s now + 1) * duration s)
share_floor s now v = div_floor (pos_part s.total_amount * elapsed s now) (duration s) (omega arith)

pub share_mono : (s : Stream) (n m : ℕ) → IsWellFormed s → n ≤ m → share s n ≤ share s m
share_mono s n m v h =
    div_mono _ _ (duration s)
      (mul_mono_right (pos_part s.total_amount) (elapsed s n) (elapsed s m) (omega arith))
      (omega arith)

pub share_end :
    (s : Stream) (n : ℕ) → IsWellFormed s → s.end_ledger ≤ n → pos (share s n) ≡ s.total_amount
share_end s n v h =
    let e : elapsed s n ≡ duration s = omega arith in
    rw (e, mul-div_self _ (duration s) (omega arith)) (ground arith)

pub share_start : (s : Stream) (n : ℕ) → n ≤ s.start_ledger → share s n ≡ 0
share_start s n h = let e : elapsed s n ≡ 0 = omega arith in rw (e, mul-zero, zero-div)

-- Before the start and from the end on nothing can overflow, or has to be rounded.
pub streamed_amount-start :
    (s : Stream) (now : ℕ)
    → s.status ≢ cancelled
    → now ≤ s.start_ledger
    → streamed_amount s now ≡ ok (pos 0)
unfolding streamed_amount
streamed_amount-start s now n h = ground arith

pub streamed_amount-end :
    (s : Stream) (now : ℕ)
    → IsWellFormed s
    → HasRoom s
    → s.status ≢ cancelled
    → s.end_ledger ≤ now
    → streamed_amount s now ≡ ok s.total_amount
streamed_amount-end s now v r n h =
    rw (streamed_amount-earned s now v r) (ground (arith, share_end s now v h))

-- ===== src/Stream/Math.antt =====
-- The streaming arithmetic, contracts/stream/src/math.rs.
use stellar_stream_hive_cont.Base.{
  ℕ, ◌-◌, min, Bool, ◌&&◌, not, Option, none, some, ltb, leb, ◌==◌, if◌then◌else◌,
}
use stellar_stream_hive_cont.Base.Int.{ℤ, pos, min_ℤ, max_ℤ, checked_sub, checked_mul, checked_div}
use stellar_stream_hive_cont.Host.Results.{Outcome, ok, ◌>>=◌, ◌>>◌, raise_if, ok_or}
use stellar_stream_hive_cont.Stream.Types.{
  StreamStatus, pending, active, completed, cancelled, same_status, Stream, StreamError,
  invalid_time_range, math_overflow,
}

-- `u32::checked_sub`
abbrev pub checked_sub_u32 : ℕ → ℕ → Option ℕ
checked_sub_u32 a b = if leb b a then some (a - b) else none

abbrev pub is_cancelled : Stream → Bool
is_cancelled stream = same_status stream.status cancelled

-- The test for a stream that was cancelled before its cliff.
abbrev pub cancelled_before_cliff : Stream → Bool
cancelled_before_cliff stream =
    is_cancelled stream && ltb stream.cancelled_at_ledger stream.cliff_ledger

abbrev pub effective_now : Stream → ℕ → ℕ
effective_now stream now = if is_cancelled stream then stream.cancelled_at_ledger else now

-- The part of `streamed_amount` below its early returns.
unfoldable pub accrue : Stream → ℕ → Outcome StreamError ℤ
accrue stream effective_now = do
  let clamped_now = min effective_now stream.end_ledger
  let elapsed = pos (clamped_now - stream.start_ledger)
  total_duration ← ok_or (checked_sub_u32 stream.end_ledger stream.start_ledger) invalid_time_range
  raise_if (total_duration == 0) invalid_time_range
  numerator ← ok_or (checked_mul stream.total_amount elapsed) math_overflow
  streamed ← ok_or (checked_div numerator (pos total_duration)) math_overflow
  ok (min_ℤ streamed stream.total_amount)

unfoldable pub streamed_amount : Stream → ℕ → Outcome StreamError ℤ
streamed_amount stream now =
    if cancelled_before_cliff stream
    then ok (pos 0)
    else if leb (effective_now stream now) stream.start_ledger
    then ok (pos 0)
    else accrue stream (effective_now stream now)

-- The part of `withdrawable_amount` below its early returns.
unfoldable pub unwithdrawn : Stream → ℕ → Outcome StreamError ℤ
unwithdrawn stream now = do
  streamed ← streamed_amount stream now
  withdrawable ← ok_or (checked_sub streamed stream.withdrawn) math_overflow
  ok (max_ℤ withdrawable (pos 0))

unfoldable pub withdrawable_amount : Stream → ℕ → Outcome StreamError ℤ
unfolding unwithdrawn
withdrawable_amount stream now =
    if ltb now stream.cliff_ledger && not (is_cancelled stream)
    then ok (pos 0)
    else if cancelled_before_cliff stream
    then ok (pos 0)
    else unwithdrawn stream now

unfoldable pub compute_status : Stream → ℕ → StreamStatus
compute_status stream now =
    if is_cancelled stream
    then cancelled
    else if ltb now stream.start_ledger
    then pending
    else if leb stream.end_ledger now
    then completed
    else active

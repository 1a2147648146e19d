-- ===== src/Stream/Tests.antt =====
-- The theorems on the stream contract at concrete streams and calls.
use stellar_stream_hive_cont.Base.{◌≡◌, ◌≤◌, refl, arith, true}
use stellar_stream_hive_cont.Base.Int.{pos, ◌≤ℤ◌}
use stellar_stream_hive_cont.Host.{ok}
use stellar_stream_hive_cont.Stream.Types.{Stream, active, completed}
use stellar_stream_hive_cont.Stream.Math.{streamed_amount, compute_status}
use stellar_stream_hive_cont.Stream.Accrual.{IsWellFormed, HasRoom, earned, streamed_amount-share}
use stellar_stream_hive_cont.Stream.Overflow.{streamed_amount-bounded}
use stellar_stream_hive_cont.Stream.Withdrawable.{compute_status-streamed}

-- 1000 units over the ledgers 100 to 103, with a cliff at 101.
abbrev short : Stream
short = record {
  id = 1;
  sender = 7;
  recipient = 8;
  token = 3;
  total_amount = pos 1000;
  withdrawn = pos 300;
  start_ledger = 100;
  end_ledger = 103;
  cliff_ledger = 101;
  cancellable = true;
  status = active;
  created_at = 90;
  cancelled_at_ledger = 0;
}

short-IsWellFormed : IsWellFormed short
short-IsWellFormed = omega arith

streamed_amount-share_example : streamed_amount short 102 ≡ ok (pos 666)
streamed_amount-share_example = streamed_amount-share short 102 short-IsWellFormed

live_status : compute_status short 200 ≡ completed
unfolding compute_status
live_status = refl

compute_status-streamed_example : (103 ≤ 200) × (streamed_amount short 200 ≡ ok (pos 1000))
compute_status-streamed_example =
    ((compute_status-streamed short 200 short-IsWellFormed (omega arith)).2 (λ e. cc)).3 live_status

streamed_amount-bounded_example :
    HasRoom short
    × (streamed_amount short 102 ≡ ok (pos (earned short 102)))
    × (pos (earned short 102) ≤ℤ short.total_amount)
streamed_amount-bounded_example =
    streamed_amount-bounded short 102 short-IsWellFormed (omega arith) (omega arith)

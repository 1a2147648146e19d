-- ===== src/Stream/Types.antt =====
-- The data of the stream contract, contracts/stream/src/types.rs, error.rs and events.rs.
use stellar_stream_hive_cont.Base.{ℕ, Bool, true, false}
use stellar_stream_hive_cont.Base.Int.{ℤ}
use stellar_stream_hive_cont.Host.{Address}

pub data StreamStatus : Type 0 where
  pending active completed cancelled : StreamStatus

-- The derived `==` of the statuses.
abbrev pub same_status : StreamStatus → StreamStatus → Bool
same_status pending pending = true
same_status active active = true
same_status completed completed = true
same_status cancelled cancelled = true
same_status _ _ = false

pub record Stream : Type 0 where
  pub id : ℕ
  pub sender : Address
  pub recipient : Address
  pub token : Address
  pub total_amount : ℤ
  pub withdrawn : ℤ
  pub start_ledger : ℕ
  pub end_ledger : ℕ
  pub cliff_ledger : ℕ
  pub cancellable : Bool
  pub status : StreamStatus
  pub created_at : ℕ
  pub cancelled_at_ledger : ℕ

pub data StreamError : Type 0 where
  already_initialized : StreamError
  not_initialized : StreamError
  unauthorized : StreamError
  invalid_amount : StreamError
  invalid_time_range : StreamError
  invalid_cliff : StreamError
  stream_not_found : StreamError
  before_cliff : StreamError
  exceeds_withdrawable : StreamError
  not_cancellable : StreamError
  already_finalized : StreamError
  math_overflow : StreamError
  paused : StreamError

-- The events with their fields in the order of the source.
pub data StreamEvent : Type 0 where
  create : ℕ → Address → Address → Address → ℤ → ℕ → ℕ → ℕ → Bool → StreamEvent
  withdraw : ℕ → Address → ℤ → StreamEvent
  cancel : ℕ → Address → ℤ → ℤ → StreamEvent
  pause : Address → StreamEvent
  unpause : Address → StreamEvent
  admin_transfer : Address → Address → StreamEvent

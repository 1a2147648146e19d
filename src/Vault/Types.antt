-- ===== src/Vault/Types.antt =====
-- The error codes and events of the vault, contracts/vault/src/error.rs and events.rs.
use stellar_stream_hive_cont.Base.{ℕ}
use stellar_stream_hive_cont.Base.Int.{ℤ}
use stellar_stream_hive_cont.Host.{Address}

pub data VaultError : Type 0 where
  already_initialized : VaultError
  not_initialized : VaultError
  unauthorized : VaultError
  invalid_amount : VaultError
  insufficient_balance : VaultError
  math_overflow : VaultError
  token_mismatch : VaultError

-- `deposit stream_id from token amount`, `release stream_id to token amount`,
-- `refund stream_id to token amount` and `set_stream_contract new_contract`.
pub data VaultEvent : Type 0 where
  deposit : ℕ → Address → Address → ℤ → VaultEvent
  release : ℕ → Address → Address → ℤ → VaultEvent
  refund : ℕ → Address → Address → ℤ → VaultEvent
  set_stream_contract : Address → VaultEvent

pub data PayoutKind : Type 0 where
  release refund : PayoutKind

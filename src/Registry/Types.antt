-- ===== src/Registry/Types.antt =====
-- The data of the registry, contracts/registry/src/types.rs, error.rs and events.rs.
use stellar_stream_hive_cont.Base.{ℕ, Bool, true, false}
use stellar_stream_hive_cont.Base.Int.{ℤ}
use stellar_stream_hive_cont.Host.{Address}

pub data StreamStatus : Type 0 where
  pending active completed cancelled : StreamStatus

-- `status == StreamStatus::Active`
abbrev pub is_active : StreamStatus → Bool
is_active active = true
is_active _ = false

pub record StreamRecord : Type 0 where
  pub stream_id : ℕ
  pub sender : Address
  pub recipient : Address
  pub token : Address
  pub amount : ℤ
  pub withdrawn : ℤ
  pub status : StreamStatus

pub record RegistryStats : Type 0 where
  pub total_streams : ℕ
  pub active_streams : ℕ
  pub total_streamed : ℤ
  pub total_withdrawn : ℤ

pub data RegistryError : Type 0 where
  already_initialized : RegistryError
  not_initialized : RegistryError
  invalid_amount : RegistryError
  already_registered : RegistryError
  stream_not_found : RegistryError
  math_overflow : RegistryError

-- `register stream_id amount` and `update stream_id withdrawn`.
pub data RegistryEvent : Type 0 where
  register : ℕ → ℤ → RegistryEvent
  update : ℕ → ℤ → RegistryEvent

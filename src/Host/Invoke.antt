-- ===== src/Host/Invoke.antt =====
-- `Env::invoke_contract`, which the host implements: a call of another contract by its address, the
-- name of a function and a vector of arguments.
use Prim.Native.String.{String}
use stellar_stream_hive_cont.Base.{ℕ, Option, List}
use stellar_stream_hive_cont.Base.Int.{ℤ}
use stellar_stream_hive_cont.Host.{Env, Address}

-- The arguments that the contracts pass, as `into_val` builds them.
pub data Val : Type 0 where
  address : Address → Val
  i128 : ℤ → Val
  u64 : ℕ → Val

-- `W` is the state of the ledger outside the caller. A callee that fails makes the caller trap,
-- which is `none`.
pub record Invoker (W : Type 0) : Type 0 where
  pub invoke_contract : Env → Address → String → List Val → W → Option W

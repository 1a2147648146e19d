-- ===== src/Stream/VaultClient.antt =====
-- The calls of the vault by address and name, contracts/stream/src/vault_client.rs.
use stellar_stream_hive_cont.Base.{ℕ, Option, [], ◌∷◌}
use stellar_stream_hive_cont.Base.Int.{ℤ}
use stellar_stream_hive_cont.Host.{Env, Address}
use stellar_stream_hive_cont.Host.Invoke.{Val, Invoker}

module _ {W : Type 0} (host : Invoker W) where
  abbrev pub deposit : Env → Address → Address → Address → ℤ → ℕ → W → Option W
  deposit env vault from token amount stream_id =
      host.invoke_contract env vault "deposit"
        (Val.address from ∷ Val.address token ∷ Val.i128 amount ∷ Val.u64 stream_id ∷ [])

  abbrev pub release : Env → Address → Address → Address → Address → ℤ → ℕ → W → Option W
  release env vault caller to token amount stream_id = host.invoke_contract env vault "release" (
      Val.address caller
      ∷ Val.address to
      ∷ Val.address token
      ∷ Val.i128 amount
      ∷ Val.u64 stream_id
      ∷ [])

  abbrev pub refund : Env → Address → Address → Address → Address → ℤ → ℕ → W → Option W
  refund env vault caller to token amount stream_id = host.invoke_contract env vault "refund" (
      Val.address caller
      ∷ Val.address to
      ∷ Val.address token
      ∷ Val.i128 amount
      ∷ Val.u64 stream_id
      ∷ [])

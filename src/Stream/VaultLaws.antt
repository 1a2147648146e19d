-- ===== src/Stream/VaultLaws.antt =====
-- What the stream contract relies on of its vault: the balance of each stream, and how the three
-- calls change it.
use stellar_stream_hive_cont.Base.{ℕ, Option, some, ◌≡◌, ◌==◌, if◌then◌else◌}
use stellar_stream_hive_cont.Base.Int.{ℤ, ◌+ℤ◌, ◌-ℤ◌, ◌≤ℤ◌}
use stellar_stream_hive_cont.Host.{Env, Address}
use stellar_stream_hive_cont.Host.Invoke.{Invoker}
use stellar_stream_hive_cont.Stream.VaultClient

-- The token of a funded stream stays.
abbrev pub KeepsTokens : {W : Type 0} → (ℕ → W → Option Address) → W → W → Type 0
KeepsTokens token_of w w' = (i : ℕ) (t : Address) → token_of i w ≡ some t → token_of i w' ≡ some t

-- A payout lowers the balance of its stream, which covers it, and no other.
abbrev pub TakesOut : {W : Type 0} → (ℕ → W → ℤ) → ℤ → ℕ → W → W → Type 0
TakesOut balance amount id w w' =
    (amount ≤ℤ balance id w)
    × ((i : ℕ) → balance i w' ≡ (if i == id then balance i w -ℤ amount else balance i w))

-- A deposit raises the balance of its stream, and no other.
abbrev pub PutsIn : {W : Type 0} → (ℕ → W → ℤ) → ℤ → ℕ → W → W → Type 0
PutsIn balance amount id w w' =
    (i : ℕ) → balance i w' ≡ (if i == id then balance i w +ℤ amount else balance i w)

-- `host` reaches a vault at the address `vault`.
pub record IsVault {W : Type 0} (host : Invoker W) (vault : Address) : Type 0 where
  pub balance : ℕ → W → ℤ
  pub token_of : ℕ → W → Option Address
  pub deposit_adds :
      (env : Env) (from token : Address) (amount : ℤ) (id : ℕ) (w w' : W)
      → VaultClient.deposit host env vault from token amount id w ≡ some w'
      → PutsIn balance amount id w w' × (token_of id w' ≡ some token) × KeepsTokens token_of w w'
  pub release_takes :
      (env : Env) (caller to token : Address) (amount : ℤ) (id : ℕ) (w w' : W)
      → VaultClient.release host env vault caller to token amount id w ≡ some w'
      → TakesOut balance amount id w w' × KeepsTokens token_of w w'
  pub refund_takes :
      (env : Env) (caller to token : Address) (amount : ℤ) (id : ℕ) (w w' : W)
      → VaultClient.refund host env vault caller to token amount id w ≡ some w'
      → TakesOut balance amount id w w' × KeepsTokens token_of w w'

-- ===== src/Host/Token.antt =====
-- The token contracts, which are not part of the repository: a client that moves balances, and
-- the documented behaviour of `transfer` that the vault relies on.
use stellar_stream_hive_cont.Base.{◌≡◌, Option, some, ◌&&◌, ◌==◌, if◌then◌else◌}
use stellar_stream_hive_cont.Base.Int.{ℤ, pos, ◌+ℤ◌, ◌-ℤ◌}
use stellar_stream_hive_cont.Host.{Env, Address}

-- `T` is the state of all tokens. `transfer env token from to amount` is the call that a contract
-- makes in the environment `env`; it is `none` where the token contract traps.
pub record TokenClient (T : Type 0) : Type 0 where
  pub transfer : Env → Address → Address → Address → ℤ → T → Option T
  pub balance : Address → Address → T → ℤ

-- A transfer that goes through takes the amount from one account, adds it to the other, and
-- changes no other balance of any token.
pub record IsToken {T : Type 0} (c : TokenClient T) : Type 0 where
  pub transfer_moves :
      (env : Env) (token from to : Address) (amount : ℤ) (s s' : T)
      → c.transfer env token from to amount s ≡ some s'
      → (tok a : Address)
      → c.balance tok a s'
        ≡ c.balance tok a s
          -ℤ (if tok == token && a == from then amount else pos 0)
          +ℤ (if tok == token && a == to then amount else pos 0)

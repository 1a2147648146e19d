-- ===== src/Vault/Effects.antt =====
-- What the operations that move tokens have done when they end with `ok`
-- (contracts/vault/src/lib.rs, `deposit` and `authorize_and_pay`).
use stellar_stream_hive_cont.Base.{ℕ, ◌≡◌, ◌⊎◌, true, none, some, ◌∷◌, if◌then◌else◌, arith, ◌==◌}
use stellar_stream_hive_cont.Base.Int.{ℤ, pos, ◌+ℤ◌, ◌-ℤ◌, ◌≤ℤ◌, IsI128, checked_add, checked_sub}
use stellar_stream_hive_cont.Base.Dict.{lookup, insert, lookup-insert, is_some}
use stellar_stream_hive_cont.Host.{Env, Address, ok}
use stellar_stream_hive_cont.Host.Token.{TokenClient}
use stellar_stream_hive_cont.Vault.Types.{VaultEvent, PayoutKind}
use stellar_stream_hive_cont.Vault.Storage.{World, get_stream_balance, get_total_locked}
use stellar_stream_hive_cont.Vault.Contract.{deposit, authorize_and_pay, payout_event}

-- The balance of a stream after a payout or a deposit.
pub balance-insert :
    {T : Type 0} (id i : ℕ) (b : ℤ) (w w' : World T)
    → w'.stream_balance ≡ insert i b w.stream_balance
    → get_stream_balance id w' ≡ (if id == i then b else get_stream_balance id w)
balance-insert id i b w w' e = rw (e, lookup-insert id i b w.stream_balance) (ground arith)

module _ {T : Type 0} (client : TokenClient T) where
  -- The guards that a deposit has passed, and the change that it made.
  pub record Deposited (env : Env) (from token : Address) (amount : ℤ) (stream_id : ℕ)
      (w w' : World T) : Type 0 where
    pub positive : pos 1 ≤ℤ amount
    pub signed : env.authorizes from ≡ true
    pub token_fits :
        (lookup stream_id w.stream_token ≡ none) ⊎ (lookup stream_id w.stream_token ≡ some token)
    pub paid : client.transfer env token from env.current_contract amount w.tokens ≡ some w'.tokens
    pub balance_fits : IsI128 (get_stream_balance stream_id w +ℤ amount)
    pub total_fits : IsI128 (get_total_locked token w +ℤ amount)
    pub balance_set :
        w'.stream_balance
        ≡ insert stream_id (get_stream_balance stream_id w +ℤ amount) w.stream_balance
    pub token_set : w'.stream_token ≡ (
        if is_some (lookup stream_id w.stream_token)
        then w.stream_token
        else insert stream_id token w.stream_token)
    pub total_set :
        w'.total_locked ≡ insert token (get_total_locked token w +ℤ amount) w.total_locked
    pub logged : w'.events ≡ VaultEvent.deposit stream_id from token amount ∷ w.events
    pub admin_kept : w'.admin ≡ w.admin
    pub contract_kept : w'.stream_contract ≡ w.stream_contract

  pub deposit_ok :
      (env : Env) (from token : Address) (amount : ℤ) (stream_id : ℕ) (w w' : World T)
      → deposit client env from token amount stream_id w ≡ ok (tt, w')
      → Deposited env from token amount stream_id w w'
  unfolding deposit checked_add
  deposit_ok env from token amount stream_id w w' h = ground arith

  -- The guards that a payout has passed, and the change that it made.
  pub record Paid (env : Env) (caller to token : Address) (amount : ℤ) (stream_id : ℕ)
      (kind : PayoutKind) (w w' : World T) : Type 0 where
    pub positive : pos 1 ≤ℤ amount
    pub trusted : w.stream_contract ≡ some caller
    pub signed : env.authorizes caller ≡ true
    pub token_fits :
        (lookup stream_id w.stream_token ≡ none) ⊎ (lookup stream_id w.stream_token ≡ some token)
    pub covered : amount ≤ℤ get_stream_balance stream_id w
    pub balance_fits : IsI128 (get_stream_balance stream_id w -ℤ amount)
    pub total_fits : IsI128 (get_total_locked token w -ℤ amount)
    pub balance_set :
        w'.stream_balance
        ≡ insert stream_id (get_stream_balance stream_id w -ℤ amount) w.stream_balance
    pub total_set :
        w'.total_locked ≡ insert token (get_total_locked token w -ℤ amount) w.total_locked
    pub paid : client.transfer env token env.current_contract to amount w.tokens ≡ some w'.tokens
    pub logged : w'.events ≡ payout_event client kind stream_id to token amount ∷ w.events
    pub token_kept : w'.stream_token ≡ w.stream_token
    pub admin_kept : w'.admin ≡ w.admin
    pub contract_kept : w'.stream_contract ≡ w.stream_contract

  pub authorize_and_pay_ok :
      (env : Env) (caller to token : Address) (amount : ℤ) (stream_id : ℕ) (kind : PayoutKind)
      (w w' : World T)
      → authorize_and_pay client env caller to token amount stream_id kind w ≡ ok (tt, w')
      → Paid env caller to token amount stream_id kind w w'
  unfolding authorize_and_pay checked_sub
  authorize_and_pay_ok env caller to token amount stream_id kind w w' h = ground arith

  -- A deposit that passes every guard goes through.
  pub deposit_succeeds :
      (env : Env) (from token : Address) (amount : ℤ) (stream_id : ℕ) (w : World T) (t : T)
      → pos 1 ≤ℤ amount
      → env.authorizes from ≡ true
      → (lookup stream_id w.stream_token ≡ none) ⊎ (lookup stream_id w.stream_token ≡ some token)
      → client.transfer env token from env.current_contract amount w.tokens ≡ some t
      → IsI128 (get_stream_balance stream_id w +ℤ amount)
      → IsI128 (get_total_locked token w +ℤ amount)
      → (w' : World T) × (deposit client env from token amount stream_id w ≡ ok (tt, w'))
  unfolding deposit checked_add
  deposit_succeeds env from token amount stream_id w t p a f m b c = (
    record {
      admin = w.admin;
      stream_contract = w.stream_contract;
      stream_balance = insert stream_id (get_stream_balance stream_id w +ℤ amount) w.stream_balance;
      stream_token =
          if is_some (lookup stream_id w.stream_token)
          then w.stream_token
          else insert stream_id token w.stream_token;
      total_locked = insert token (get_total_locked token w +ℤ amount) w.total_locked;
      events = VaultEvent.deposit stream_id from token amount ∷ w.events;
      tokens = t;
    },
    ground arith,
  )

  -- A payout that passes every guard goes through.
  pub authorize_and_pay_succeeds :
      (env : Env) (caller to token : Address) (amount : ℤ) (stream_id : ℕ) (kind : PayoutKind)
      (w : World T) (t : T)
      → pos 1 ≤ℤ amount
      → w.stream_contract ≡ some caller
      → env.authorizes caller ≡ true
      → (lookup stream_id w.stream_token ≡ none) ⊎ (lookup stream_id w.stream_token ≡ some token)
      → amount ≤ℤ get_stream_balance stream_id w
      → IsI128 (get_stream_balance stream_id w -ℤ amount)
      → IsI128 (get_total_locked token w -ℤ amount)
      → client.transfer env token env.current_contract to amount w.tokens ≡ some t
      → (w' : World T) × (authorize_and_pay client env caller to token amount stream_id kind w
          ≡ ok (tt, w'))
  unfolding authorize_and_pay checked_sub
  authorize_and_pay_succeeds env caller to token amount stream_id kind w t p s a f c b n m = (
    record w {
      stream_balance = insert stream_id (get_stream_balance stream_id w -ℤ amount) w.stream_balance;
      total_locked = insert token (get_total_locked token w -ℤ amount) w.total_locked;
      events = payout_event client kind stream_id to token amount ∷ w.events;
      tokens = t;
    },
    ground arith,
  )

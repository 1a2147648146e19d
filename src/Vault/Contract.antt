-- ===== src/Vault/Contract.antt =====
-- The operations of the vault, contracts/vault/src/lib.rs.
use stellar_stream_hive_cont.Base.{ℕ, Option, none, some, not, ◌==◌}
use stellar_stream_hive_cont.Base.Int.{ℤ, pos, leb_ℤ, ltb_ℤ, checked_add, checked_sub}
use stellar_stream_hive_cont.Host.{
  Env, Address, Outcome, Action, ◌>>=◌, ◌>>◌, pure, gets, modify, raise_if, ok_or, require_auth,
  external,
}
use stellar_stream_hive_cont.Host.Results
use stellar_stream_hive_cont.Host.Token.{TokenClient}
use stellar_stream_hive_cont.Vault.Types.{
  VaultError, already_initialized, not_initialized, unauthorized, invalid_amount,
  insufficient_balance, math_overflow, token_mismatch, VaultEvent, PayoutKind,
}
use stellar_stream_hive_cont.Vault.Storage
use stellar_stream_hive_cont.Vault.Storage.{World, publish}

abbrev pub VaultAction : Type 0 → Type 0 → Type 0
VaultAction T A = Action (World T) VaultError A

module _ {T : Type 0} where
  unfoldable pub initialize : Env → Address → Address → VaultAction T (Unit {0})
  initialize env admin stream_contract = do
    raise_if (← gets Storage.has_admin) already_initialized
    require_auth env admin
    modify (Storage.set_admin admin)
    modify (Storage.set_stream_contract stream_contract)

  unfoldable pub set_stream_contract : Env → Address → Address → VaultAction T (Unit {0})
  set_stream_contract env admin new_contract = do
    stored_admin ← ok_or (← gets Storage.get_admin) not_initialized
    require_auth env admin
    raise_if (not (admin == stored_admin)) unauthorized
    modify (Storage.set_stream_contract new_contract)
    modify (publish (VaultEvent.set_stream_contract new_contract))

  -- The queries.
  abbrev pub balance_of_stream : ℕ → World T → ℤ
  balance_of_stream stream_id w = Storage.get_stream_balance stream_id w

  abbrev pub total_locked : Address → World T → ℤ
  total_locked token w = Storage.get_total_locked token w

  abbrev pub get_stream_contract : World T → Outcome VaultError Address
  get_stream_contract w = Results.ok_or (Storage.get_stream_contract w) not_initialized

  abbrev pub get_admin : World T → Outcome VaultError Address
  get_admin w = Results.ok_or (Storage.get_admin w) not_initialized

module _ {T : Type 0} (client : TokenClient T) where
  -- `client.transfer(&from, &to, &amount)`
  abbrev pub transfer : Env → Address → Address → Address → ℤ → VaultAction T (Unit {0})
  transfer env token from to amount = external λ w.
      elim (client.transfer env token from to amount w.tokens) [
        | none ↦ none
        | some t ↦ some (record w { tokens = t })
      ]

  -- The `if let Some(existing_token)` of `deposit`: the first deposit fixes the token.
  abbrev pub fix_stream_token : ℕ → Address → Option Address → VaultAction T (Unit {0})
  fix_stream_token stream_id token (some existing_token) =
      raise_if (not (existing_token == token)) token_mismatch
  fix_stream_token stream_id token none = modify (Storage.set_stream_token stream_id token)

  unfoldable pub deposit : Env → Address → Address → ℤ → ℕ → VaultAction T (Unit {0})
  deposit env from token amount stream_id = do
    raise_if (leb_ℤ amount (pos 0)) invalid_amount
    require_auth env from
    fix_stream_token stream_id token (← gets (Storage.get_stream_token stream_id))
    transfer env token from env.current_contract amount
    new_balance ←
        ok_or (checked_add (← gets (Storage.get_stream_balance stream_id)) amount) math_overflow
    modify (Storage.set_stream_balance stream_id new_balance)
    new_total ← ok_or (checked_add (← gets (Storage.get_total_locked token)) amount) math_overflow
    modify (Storage.set_total_locked token new_total)
    modify (publish (VaultEvent.deposit stream_id from token amount))

  -- The `if let Some(existing_token)` of `authorize_and_pay`.
  abbrev pub check_stream_token : Address → Option Address → VaultAction T (Unit {0})
  check_stream_token token (some existing_token) =
      raise_if (not (existing_token == token)) token_mismatch
  check_stream_token token none = pure tt

  abbrev pub payout_event : PayoutKind → ℕ → Address → Address → ℤ → VaultEvent
  payout_event PayoutKind.release = VaultEvent.release
  payout_event PayoutKind.refund = VaultEvent.refund

  unfoldable pub authorize_and_pay :
      Env → Address → Address → Address → ℤ → ℕ → PayoutKind → VaultAction T (Unit {0})
  authorize_and_pay env caller to token amount stream_id kind = do
    raise_if (leb_ℤ amount (pos 0)) invalid_amount
    stream_contract ← ok_or (← gets Storage.get_stream_contract) not_initialized
    require_auth env caller
    raise_if (not (caller == stream_contract)) unauthorized
    check_stream_token token (← gets (Storage.get_stream_token stream_id))
    current_balance ← gets (Storage.get_stream_balance stream_id)
    raise_if (ltb_ℤ current_balance amount) insufficient_balance
    new_balance ← ok_or (checked_sub current_balance amount) math_overflow
    modify (Storage.set_stream_balance stream_id new_balance)
    current_total ← gets (Storage.get_total_locked token)
    new_total ← ok_or (checked_sub current_total amount) math_overflow
    modify (Storage.set_total_locked token new_total)
    transfer env token env.current_contract to amount
    modify (publish (payout_event kind stream_id to token amount))

  unfoldable pub release : Env → Address → Address → Address → ℤ → ℕ → VaultAction T (Unit {0})
  unfolding authorize_and_pay
  release env caller to token amount stream_id =
      authorize_and_pay env caller to token amount stream_id PayoutKind.release

  unfoldable pub refund : Env → Address → Address → Address → ℤ → ℕ → VaultAction T (Unit {0})
  unfolding authorize_and_pay
  refund env caller to token amount stream_id =
      authorize_and_pay env caller to token amount stream_id PayoutKind.refund

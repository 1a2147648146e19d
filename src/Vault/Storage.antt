-- ===== src/Vault/Storage.antt =====
-- The storage of the vault, contracts/vault/src/storage.rs: one field for each kind of `DataKey`.
use stellar_stream_hive_cont.Base.{ℕ, Bool, Option, some, List, [], ◌∷◌, none}
use stellar_stream_hive_cont.Base.Int.{ℤ, pos}
use stellar_stream_hive_cont.Base.Dict.{Dict, lookup, insert, unwrap_or, is_some}
use stellar_stream_hive_cont.Host.{Address}
use stellar_stream_hive_cont.Vault.Types.{VaultEvent}

-- With the storage stand the events published so far, newest first, and the state `T` of the
-- tokens.
pub record World (T : Type 0) : Type 0 where
  pub admin : Option Address
  pub stream_contract : Option Address
  pub stream_balance : Dict ℤ
  pub stream_token : Dict Address
  pub total_locked : Dict ℤ
  pub events : List VaultEvent
  pub tokens : T

module _ {T : Type 0} where
  -- A vault that has just been deployed.
  abbrev pub deployed : T → World T
  deployed t = record {
    admin = none;
    stream_contract = none;
    stream_balance = [];
    stream_token = [];
    total_locked = [];
    events = [];
    tokens = t;
  }

  abbrev pub has_admin : World T → Bool
  has_admin w = is_some w.admin

  abbrev pub set_admin : Address → World T → World T
  set_admin a w = record w { admin = some a }

  abbrev pub get_admin : World T → Option Address
  get_admin w = w.admin

  abbrev pub set_stream_contract : Address → World T → World T
  set_stream_contract a w = record w { stream_contract = some a }

  abbrev pub get_stream_contract : World T → Option Address
  get_stream_contract w = w.stream_contract

  abbrev pub get_stream_balance : ℕ → World T → ℤ
  get_stream_balance id w = unwrap_or (lookup id w.stream_balance) (pos 0)

  abbrev pub set_stream_balance : ℕ → ℤ → World T → World T
  set_stream_balance id amount w = record w { stream_balance = insert id amount w.stream_balance }

  abbrev pub get_stream_token : ℕ → World T → Option Address
  get_stream_token id w = lookup id w.stream_token

  abbrev pub set_stream_token : ℕ → Address → World T → World T
  set_stream_token id token w = record w { stream_token = insert id token w.stream_token }

  abbrev pub get_total_locked : Address → World T → ℤ
  get_total_locked token w = unwrap_or (lookup token w.total_locked) (pos 0)

  abbrev pub set_total_locked : Address → ℤ → World T → World T
  set_total_locked token amount w = record w { total_locked = insert token amount w.total_locked }

  -- `event.publish(&env)`
  abbrev pub publish : VaultEvent → World T → World T
  publish e w = record w { events = e ∷ w.events }

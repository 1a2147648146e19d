-- ===== src/Vault/Lifetimes.antt =====
-- How long the entries of the vault live: what contracts/vault/src/storage.rs asks of the host in its
-- write helpers, and the entry points of lib.rs, as far as they write.
use stellar_stream_hive_cont.Base.{ℕ, Bool, true, false, Option, none, some, ◌==◌}
use stellar_stream_hive_cont.Base.Dict.{lookup}
use stellar_stream_hive_cont.Host.{Env, Address}
use stellar_stream_hive_cont.Host.Token.{TokenClient}
use stellar_stream_hive_cont.Host.Lifetime.{Keeper, Lifetimes, kept_alive, settled}
use stellar_stream_hive_cont.Vault.Storage.{World}
use stellar_stream_hive_cont.Vault.Steps.{Call, invoke}

-- The ledger entries: the instance, and one for each persistent key.
pub data Entry : Type 0 where
  instance_entry : Entry
  balance_entry : ℕ → Entry
  token_entry : ℕ → Entry
  total_entry : Address → Entry

abbrev pub same_entry : Entry → Entry → Bool
same_entry Entry.instance_entry Entry.instance_entry = true
same_entry (Entry.balance_entry a) (Entry.balance_entry b) = a == b
same_entry (Entry.token_entry a) (Entry.token_entry b) = a == b
same_entry (Entry.total_entry a) (Entry.total_entry b) = a == b
same_entry _ _ = false

abbrev pub ledger_threshold : ℕ
ledger_threshold = 120960

abbrev pub ledger_bump : ℕ
ledger_bump = 241920

module _ (keeper : Keeper) where
  -- A write of an entry, and `extend_ttl` on it.
  abbrev pub kept : Env → Entry → Lifetimes Entry → Lifetimes Entry
  kept env e = kept_alive same_entry keeper env.sequence ledger_threshold ledger_bump e

  abbrev pub set_admin : Env → Lifetimes Entry → Lifetimes Entry
  set_admin env = kept env Entry.instance_entry

  abbrev pub set_stream_contract : Env → Lifetimes Entry → Lifetimes Entry
  set_stream_contract env = kept env Entry.instance_entry

  abbrev pub set_stream_balance : Env → ℕ → Lifetimes Entry → Lifetimes Entry
  set_stream_balance env id = kept env (Entry.balance_entry id)

  abbrev pub set_stream_token : Env → ℕ → Lifetimes Entry → Lifetimes Entry
  set_stream_token env id = kept env (Entry.token_entry id)

  abbrev pub set_total_locked : Env → Address → Lifetimes Entry → Lifetimes Entry
  set_total_locked env token = kept env (Entry.total_entry token)

  abbrev pub initialize : Env → Lifetimes Entry → Lifetimes Entry
  initialize env l = set_stream_contract env (set_admin env l)

  -- A deposit writes the token only where the stream has none.
  abbrev pub fix_stream_token : Env → ℕ → Option Address → Lifetimes Entry → Lifetimes Entry
  fix_stream_token env id (some existing_token) l = l
  fix_stream_token env id none l = set_stream_token env id l

  abbrev pub deposit : Env → Address → ℕ → Option Address → Lifetimes Entry → Lifetimes Entry
  deposit env token id existing l =
      set_total_locked env token (set_stream_balance env id (fix_stream_token env id existing l))

  abbrev pub authorize_and_pay : Env → Address → ℕ → Lifetimes Entry → Lifetimes Entry
  authorize_and_pay env token id l = set_total_locked env token (set_stream_balance env id l)

module _ {T : Type 0} (client : TokenClient T) (keeper : Keeper) where
  -- The writes of a call that goes through, in their order.
  abbrev pub writes : Env → Call → World T → Lifetimes Entry → Lifetimes Entry
  writes env (Call.initialize admin contract) w l = initialize keeper env l
  writes env (Call.set_stream_contract admin contract) w l = set_stream_contract keeper env l
  writes env (Call.deposit from token amount id) w l =
      deposit keeper env token id (lookup id w.stream_token) l
  writes env (Call.release caller to token amount id) w l = authorize_and_pay keeper env token id l
  writes env (Call.refund caller to token amount id) w l = authorize_and_pay keeper env token id l

  -- The lifetimes after a call; one that fails is rolled back.
  unfoldable pub lifetimes : Env → Call → World T → Lifetimes Entry → Lifetimes Entry
  lifetimes env c w l = settled (invoke client env c w) (writes env c w l) l

-- ===== src/Registry/Lifetimes.antt =====
-- How long the entries of the registry live: what contracts/registry/src/storage.rs asks of the host
-- in its write helpers, and the entry points of lib.rs, as far as they write.
use stellar_stream_hive_cont.Base.{ℕ, Bool, true, false, Option, none, some, ◌==◌}
use stellar_stream_hive_cont.Base.Dict.{lookup}
use stellar_stream_hive_cont.Host.{Env}
use stellar_stream_hive_cont.Host.Lifetime.{Keeper, Lifetimes, kept_alive, settled}
use stellar_stream_hive_cont.Registry.Types.{StreamRecord}
use stellar_stream_hive_cont.Registry.Storage.{World, get_stream_count}
use stellar_stream_hive_cont.Registry.Steps.{Call, invoke}

-- The ledger entries: the instance, and one for each persistent key.
pub data Entry : Type 0 where
  instance_entry : Entry
  id_entry : ℕ → Entry
  record_entry : ℕ → Entry

abbrev pub same_entry : Entry → Entry → Bool
same_entry Entry.instance_entry Entry.instance_entry = true
same_entry (Entry.id_entry a) (Entry.id_entry b) = a == b
same_entry (Entry.record_entry a) (Entry.record_entry b) = a == b
same_entry _ _ = false

abbrev pub ledger_threshold : ℕ
ledger_threshold = 120960

abbrev pub ledger_bump : ℕ
ledger_bump = 241920

module _ (keeper : Keeper) where
  -- A write of an entry, and `extend_ttl` on it.
  abbrev pub kept : Env → Entry → Lifetimes Entry → Lifetimes Entry
  kept env e = kept_alive same_entry keeper env.sequence ledger_threshold ledger_bump e

  abbrev pub set_admin : Env → Lifetimes Entry → Lifetimes Entry
  set_admin env = kept env Entry.instance_entry

  -- The id at its index, and the number of streams.
  abbrev pub add_stream_id : Env → ℕ → Lifetimes Entry → Lifetimes Entry
  add_stream_id env index l = kept env Entry.instance_entry (kept env (Entry.id_entry index) l)

  abbrev pub set_record : Env → ℕ → Lifetimes Entry → Lifetimes Entry
  set_record env id = kept env (Entry.record_entry id)

  abbrev pub set_stats : Env → Lifetimes Entry → Lifetimes Entry
  set_stats env = kept env Entry.instance_entry

  abbrev pub initialize : Env → Lifetimes Entry → Lifetimes Entry
  initialize env l = set_stats env (set_admin env l)

  abbrev pub register_stream : Env → ℕ → ℕ → Lifetimes Entry → Lifetimes Entry
  register_stream env id index l = set_stats env (add_stream_id env index (set_record env id l))

  abbrev pub update_stream : Env → Option StreamRecord → Lifetimes Entry → Lifetimes Entry
  update_stream env none l = l
  update_stream env (some found) l = set_stats env (set_record env found.stream_id l)

module _ (keeper : Keeper) where
  -- The writes of a call that goes through, in their order.
  abbrev pub writes : Env → Call → World → Lifetimes Entry → Lifetimes Entry
  writes env (Call.initialize admin) w l = initialize keeper env l
  writes env (Call.register_stream id sender recipient token amount) w l =
      register_stream keeper env id (get_stream_count w) l
  writes env (Call.update_stream id withdrawn status) w l =
      update_stream keeper env (lookup id w.records) l

  -- The lifetimes after a call; one that fails is rolled back.
  unfoldable pub lifetimes : Env → Call → World → Lifetimes Entry → Lifetimes Entry
  lifetimes env c w l = settled (invoke env c w) (writes env c w l) l

-- ===== src/Registry/Storage.antt =====
-- The storage of the registry, contracts/registry/src/storage.rs: one field for each kind of
-- `DataKey`.
use stellar_stream_hive_cont.Base.{ℕ, ◌+◌, ◌-◌, min, Bool, Option, none, some, List, [], ◌∷◌, ltb}
use stellar_stream_hive_cont.Base.Int.{pos}
use stellar_stream_hive_cont.Base.Dict.{Dict, lookup, insert, unwrap_or, is_some}
use stellar_stream_hive_cont.Base.Pages.{gather, saturating_add, u32_max}
use stellar_stream_hive_cont.Host.{Address, Action, ◌>>=◌, ◌>>◌, gets, modify, trap_unless}
use stellar_stream_hive_cont.Registry.Types.{
  StreamRecord, RegistryStats, RegistryError, RegistryEvent,
}

-- With the storage stand the events published so far, newest first.
pub record World : Type 0 where
  pub admin : Option Address
  pub stream_count : Option ℕ
  pub stream_id_at : Dict ℕ
  pub records : Dict StreamRecord
  pub stats : Option RegistryStats
  pub events : List RegistryEvent

-- A registry that has just been deployed.
abbrev pub deployed : World
deployed = record {
  admin = none;
  stream_count = none;
  stream_id_at = [];
  records = [];
  stats = none;
  events = [];
}

abbrev pub has_admin : World → Bool
has_admin w = is_some w.admin

abbrev pub set_admin : Address → World → World
set_admin a w = record w { admin = some a }

abbrev pub get_admin : World → Option Address
get_admin w = w.admin

abbrev pub get_stream_count : World → ℕ
get_stream_count w = unwrap_or w.stream_count 0

-- The addition panics where it overflows, since the build has overflow checks.
abbrev pub add_stream_id : ℕ → Action World RegistryError (Unit {0})
add_stream_id stream_id = do
  index ← gets get_stream_count
  modify (λ w. record w { stream_id_at = insert index stream_id w.stream_id_at })
  trap_unless (ltb index u32_max)
  modify (λ w. record w { stream_count = some (index + 1) })

abbrev pub get_stream_ids_page : ℕ → ℕ → World → List ℕ
get_stream_ids_page offset limit w =
    let count = get_stream_count w in
    let end = min (saturating_add offset limit) count in
    gather (λ index. lookup index w.stream_id_at) (end - offset) offset

abbrev pub get_all_stream_ids : World → List ℕ
get_all_stream_ids w = get_stream_ids_page 0 (get_stream_count w) w

abbrev pub get_record : ℕ → World → Option StreamRecord
get_record stream_id w = lookup stream_id w.records

abbrev pub set_record : StreamRecord → World → World
set_record r w = record w { records = insert r.stream_id r w.records }

abbrev pub no_stats : RegistryStats
no_stats = record {
  total_streams = 0;
  active_streams = 0;
  total_streamed = pos 0;
  total_withdrawn = pos 0;
}

abbrev pub get_stats : World → RegistryStats
get_stats w = unwrap_or w.stats no_stats

abbrev pub set_stats : RegistryStats → World → World
set_stats s w = record w { stats = some s }

-- `event.publish(&env)`
abbrev pub publish : RegistryEvent → World → World
publish e w = record w { events = e ∷ w.events }

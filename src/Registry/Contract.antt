-- ===== src/Registry/Contract.antt =====
-- The operations of the registry, contracts/registry/src/lib.rs.
use stellar_stream_hive_cont.Base.{
  ℕ, ◌+◌, ◌-◌, ◌^◌, min, Bool, true, false, not, ◌&&◌, Option, none, some, List, [], ◌∷◌, leb,
  if◌then◌else◌,
}
use stellar_stream_hive_cont.Base.Int.{ℤ, pos, ltb_ℤ, checked_add, checked_sub}
use stellar_stream_hive_cont.Base.Dict.{is_some}
use stellar_stream_hive_cont.Host.{
  Env, Address, Outcome, Action, ◌>>=◌, ◌>>◌, gets, modify, raise_if, ok_or, require_auth,
}
use stellar_stream_hive_cont.Host.Results
use stellar_stream_hive_cont.Registry.Types.{
  StreamStatus, active, is_active, StreamRecord, RegistryStats, RegistryError, already_initialized,
  not_initialized, invalid_amount, already_registered, stream_not_found, math_overflow,
  RegistryEvent,
}
use stellar_stream_hive_cont.Registry.Storage
use stellar_stream_hive_cont.Registry.Storage.{World, publish, no_stats}

abbrev pub RegistryAction : Type 0 → Type 0
RegistryAction A = Action World RegistryError A

-- `u64::checked_add`
abbrev pub checked_add_u64 : ℕ → ℕ → Option ℕ
checked_add_u64 a b = if leb (a + b) (2 ^ 64 - 1) then some (a + b) else none

-- `if c { x = next?; }`: `next` where `c` holds, and else the value that `x` has.
abbrev pub if_needed {ℓ} : {A : Type ℓ} → Bool → Option A → A → Option A
if_needed true next kept = next
if_needed false next kept = some kept

unfoldable pub initialize : Env → Address → RegistryAction (Unit {0})
initialize env admin = do
  raise_if (← gets Storage.has_admin) already_initialized
  require_auth env admin
  modify (Storage.set_admin admin)
  modify (Storage.set_stats no_stats)

unfoldable pub register_stream :
    Env → ℕ → Address → Address → Address → ℤ → RegistryAction (Unit {0})
register_stream env stream_id sender recipient token amount = do
  raise_if (ltb_ℤ amount (pos 0)) invalid_amount
  raise_if (is_some (← gets (Storage.get_record stream_id))) already_registered
  let r : StreamRecord = record {
    stream_id = stream_id;
    sender = sender;
    recipient = recipient;
    token = token;
    amount = amount;
    withdrawn = pos 0;
    status = active;
  }
  modify (Storage.set_record r)
  Storage.add_stream_id stream_id
  stats ← gets Storage.get_stats
  total_streams ← ok_or (checked_add_u64 stats.total_streams 1) math_overflow
  active_streams ← ok_or (checked_add_u64 stats.active_streams 1) math_overflow
  total_streamed ← ok_or (checked_add stats.total_streamed amount) math_overflow
  modify (
      Storage.set_stats (record stats {
        total_streams = total_streams;
        active_streams = active_streams;
        total_streamed = total_streamed;
      }))
  modify (publish (RegistryEvent.register stream_id amount))

-- The number of active streams after a status has been replaced.
abbrev pub recount : Bool → Bool → ℕ → Option ℕ
recount was_active will_be_active active_streams =
    if was_active && not will_be_active
    then some (active_streams - 1)
    else if not was_active && will_be_active
    then checked_add_u64 active_streams 1
    else some active_streams

unfoldable pub update_stream : Env → ℕ → ℤ → StreamStatus → RegistryAction (Unit {0})
update_stream env stream_id withdrawn status = do
  raise_if (ltb_ℤ withdrawn (pos 0)) invalid_amount
  found ← ok_or (← gets (Storage.get_record stream_id)) stream_not_found
  stats ← gets Storage.get_stats
  withdrawn_delta ← ok_or (checked_sub withdrawn found.withdrawn) math_overflow
  total_withdrawn ←
      ok_or
        (if_needed (ltb_ℤ (pos 0) withdrawn_delta)
          (checked_add stats.total_withdrawn withdrawn_delta) stats.total_withdrawn)
        math_overflow
  active_streams ←
      ok_or (recount (is_active found.status) (is_active status) stats.active_streams) math_overflow
  modify (Storage.set_record (record found { withdrawn = withdrawn; status = status }))
  modify (
      Storage.set_stats
        (record stats { total_withdrawn = total_withdrawn; active_streams = active_streams }))
  modify (publish (RegistryEvent.update stream_id withdrawn))

-- The queries.
abbrev pub get_all_streams : World → List ℕ
get_all_streams w = Storage.get_all_stream_ids w

abbrev pub stream_count : World → ℕ
stream_count w = Storage.get_stream_count w

abbrev pub max_page_size : ℕ
max_page_size = 50

abbrev pub get_streams_page : ℕ → ℕ → World → List ℕ
get_streams_page offset limit w = Storage.get_stream_ids_page offset (min limit max_page_size) w

abbrev pub get_stats : World → RegistryStats
get_stats w = Storage.get_stats w

-- Whether there is a record, and its status is `Active`.
abbrev pub has_active_status : Option StreamRecord → Bool
has_active_status none = false
has_active_status (some r) = is_active r.status

abbrev pub is_recorded_active : World → ℕ → Bool
is_recorded_active w id = has_active_status (Storage.get_record id w)

-- `if let Some(record) = … { if record.status == Active { out.push_back(id); } }` for each id.
abbrev pub active_ids : World → List ℕ → List ℕ
active_ids w [] = []
active_ids w (id ∷ ids) =
    let rest = active_ids w ids in if is_recorded_active w id then id ∷ rest else rest

abbrev pub get_active_streams : World → List ℕ
get_active_streams w = active_ids w (Storage.get_all_stream_ids w)

abbrev pub get_stream_record : ℕ → World → Outcome RegistryError StreamRecord
get_stream_record stream_id w = Results.ok_or (Storage.get_record stream_id w) stream_not_found

abbrev pub get_admin : World → Outcome RegistryError Address
get_admin w = Results.ok_or (Storage.get_admin w) not_initialized

-- ===== src/Registry/Available.antt =====
-- When a registration goes through: the counters never stand in its way.
use stellar_stream_hive_cont.Base.{ℕ, ◌+◌, ◌<◌, ◌≡◌, none, some, ◌∷◌, arith}
use stellar_stream_hive_cont.Base.Int.{ℤ, pos, ◌+ℤ◌, ◌≤ℤ◌, IsI128, checked_add}
use stellar_stream_hive_cont.Base.Dict.{lookup, insert}
use stellar_stream_hive_cont.Base.Pages.{u32_max, length-gather}
use stellar_stream_hive_cont.Host.{Env, Address, ok}
use stellar_stream_hive_cont.Registry.Types.{RegistryEvent}
use stellar_stream_hive_cont.Registry.Storage.{World, get_stats, get_stream_count}
use stellar_stream_hive_cont.Registry.Contract.{register_stream, stream_count}
use stellar_stream_hive_cont.Registry.Totals.{active_count-le}
use stellar_stream_hive_cont.Registry.Effects.{new_record}
use stellar_stream_hive_cont.Registry.Statistics.{Managed-IsCounted}
use stellar_stream_hive_cont.Registry.Steps.{Managed}

register_succeeds :
    (env : Env) (id : ℕ) (sender recipient token : Address) (amount : ℤ) (w : World)
    → pos 0 ≤ℤ amount
    → lookup id w.records ≡ none
    → get_stream_count w < u32_max
    → (get_stats w).total_streams < u32_max
    → (get_stats w).active_streams < u32_max
    → IsI128 ((get_stats w).total_streamed +ℤ amount)
    → (w' : World) × (register_stream env id sender recipient token amount w ≡ ok (tt, w'))
unfolding register_stream checked_add
register_succeeds env id sender recipient token amount w p e r t a f = (
  record {
    admin = w.admin;
    stream_count = some (get_stream_count w + 1);
    stream_id_at = insert (get_stream_count w) id w.stream_id_at;
    records = insert id (new_record id sender recipient token amount) w.records;
    stats = some (record (get_stats w) {
      total_streams = (get_stats w).total_streams + 1;
      active_streams = (get_stats w).active_streams + 1;
      total_streamed = (get_stats w).total_streamed +ℤ amount;
    });
    events = RegistryEvent.register id amount ∷ w.events;
  },
  ground arith,
)

-- In every state that a registry can reach whose first call is its setup by an admin who authorizes
-- it: the registration of a stream that is not registered yet, with an amount of at least 0, goes
-- through if fewer streams are registered than a `u32` counts and the total streamed stays an i128.
pub register_available :
    (env : Env) (id : ℕ) (sender recipient token : Address) (amount : ℤ) (w : World)
    → Managed w
    → pos 0 ≤ℤ amount
    → lookup id w.records ≡ none
    → stream_count w < u32_max
    → IsI128 ((get_stats w).total_streamed +ℤ amount)
    → (w' : World) × (register_stream env id sender recipient token amount w ≡ ok (tt, w'))
register_available env id sender recipient token amount w m p e r f =
    let (i, v) = Managed-IsCounted w m in
    let counted = v.counted in
    let active = v.active in
    let few = length-gather (λ index. lookup index w.stream_id_at) (get_stream_count w) 0 in
    let few' = rw i.listed at few in
    register_succeeds env id sender recipient token amount w p e r (omega arith)
      (omega (arith, active_count-le w.records)) f

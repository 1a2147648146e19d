-- ===== src/Registry/Effects.antt =====
-- What the operations of the registry have done when they end with `ok`
-- (contracts/registry/src/lib.rs).
use stellar_stream_hive_cont.Base.{
  ℕ, ◌+◌, ◌<◌, ◌≡◌, refl, sym, ap, ◌∙◌, true, Option-cases, inl, inr, none, some, arith,
  if◌then◌else◌,
}
use mathlib.Core.Option.{some-injective}
use stellar_stream_hive_cont.Base.Int.{ℤ, pos, ◌+ℤ◌, ◌-ℤ◌, ◌≤ℤ◌, ltb_ℤ, checked_add, checked_sub}
use stellar_stream_hive_cont.Base.Dict.{lookup, insert}
use stellar_stream_hive_cont.Base.Pages.{u32_max}
use stellar_stream_hive_cont.Host.{Env, Address, ok}
use stellar_stream_hive_cont.Registry.Types.{StreamStatus, active, is_active, StreamRecord}
use stellar_stream_hive_cont.Registry.Storage.{World, get_stream_count, get_stats, no_stats}
use stellar_stream_hive_cont.Registry.Contract.{initialize, register_stream, update_stream, recount}

-- The record that `register_stream` writes.
abbrev pub new_record : ℕ → Address → Address → Address → ℤ → StreamRecord
new_record id sender recipient token amount = record {
  stream_id = id;
  sender = sender;
  recipient = recipient;
  token = token;
  amount = amount;
  withdrawn = pos 0;
  status = active;
}

pub record Registered (id : ℕ) (r : StreamRecord) (w w' : World) : Type 0 where
  pub positive : pos 0 ≤ℤ r.amount
  pub unknown : lookup id w.records ≡ none
  pub room : get_stream_count w < u32_max
  pub stored : w'.records ≡ insert id r w.records
  pub listed : w'.stream_id_at ≡ insert (get_stream_count w) id w.stream_id_at
  pub counted : w'.stream_count ≡ some (get_stream_count w + 1)
  pub summed :
      w'.stats
      ≡ some (record {
        total_streams = (get_stats w).total_streams + 1;
        active_streams = (get_stats w).active_streams + 1;
        total_streamed = (get_stats w).total_streamed +ℤ r.amount;
        total_withdrawn = (get_stats w).total_withdrawn;
      })
  pub admin_kept : w'.admin ≡ w.admin

pub register_stream_ok :
    (env : Env) (id : ℕ) (sender recipient token : Address) (amount : ℤ) (w w' : World)
    → register_stream env id sender recipient token amount w ≡ ok (tt, w')
    → Registered id (new_record id sender recipient token amount) w w'
unfolding register_stream checked_add
register_stream_ok env id sender recipient token amount w w' h = ground arith

pub record Updated (id : ℕ) (withdrawn : ℤ) (status : StreamStatus) (w w' : World) : Type 0 where
  pub old : StreamRecord
  pub found : lookup id w.records ≡ some old
  pub positive : pos 0 ≤ℤ withdrawn
  pub stored :
      w'.records
      ≡ insert old.stream_id (record old { withdrawn = withdrawn; status = status }) w.records
  pub active_now : ℕ
  pub recounted :
      recount (is_active old.status) (is_active status) (get_stats w).active_streams
      ≡ some active_now
  pub summed :
      w'.stats
      ≡ some (record {
        total_streams = (get_stats w).total_streams;
        active_streams = active_now;
        total_streamed = (get_stats w).total_streamed;
        total_withdrawn =
            if ltb_ℤ (pos 0) (withdrawn -ℤ old.withdrawn)
            then (get_stats w).total_withdrawn +ℤ (withdrawn -ℤ old.withdrawn)
            else (get_stats w).total_withdrawn;
      })
  pub ids_kept : w'.stream_id_at ≡ w.stream_id_at
  pub count_kept : w'.stream_count ≡ w.stream_count
  pub admin_kept : w'.admin ≡ w.admin

pub update_stream_ok :
    (env : Env) (id : ℕ) (withdrawn : ℤ) (status : StreamStatus) (w w' : World)
    → update_stream env id withdrawn status w ≡ ok (tt, w')
    → Updated id withdrawn status w w'
unfolding update_stream checked_add checked_sub
update_stream_ok env id withdrawn status w w' h = elim (Option-cases (lookup id w.records)) [
  | inl e ↦ absurd (ground arith)
  | inr (s, e) ↦
      elim (Option-cases
        (recount (is_active s.status) (is_active status) (get_stats w).active_streams)) [
          | inl f ↦ absurd (ground arith)
          | inr (n, f) ↦ record {
            old = s;
            found = e;
            positive = ground arith;
            stored = ground arith;
            active_now = n;
            recounted = f;
            summed = ground arith;
            ids_kept = ground arith;
            count_kept = ground arith;
            admin_kept = ground arith;
          }
        ]
]

-- An update of a stream that is stored under its id.
pub update_stream_known :
    (env : Env) (id : ℕ) (n : ℤ) (status : StreamStatus) (r : StreamRecord) (w w' : World)
    → lookup id w.records ≡ some r
    → r.stream_id ≡ id
    → update_stream env id n status w ≡ ok (tt, w')
    → (w'.records ≡ insert id (record r { withdrawn = n; status = status }) w.records)
      × ((get_stats w').total_withdrawn ≡ (
          if ltb_ℤ (pos 0) (n -ℤ r.withdrawn)
          then (get_stats w).total_withdrawn +ℤ (n -ℤ r.withdrawn)
          else (get_stats w).total_withdrawn))
update_stream_known env id n status r w w' found key run =
    let d = update_stream_ok env id n status w w' run in
    let same : d.old ≡ r = some-injective _ _ (sym d.found ∙ found) in
    (
      d.stored
          ∙ ap
              (λ (x : StreamRecord).
                insert x.stream_id (record x { withdrawn = n; status = status }) w.records)
              same
          ∙ ap (λ k. insert k (record r { withdrawn = n; status = status }) w.records) key,
      rw (d.summed, same) refl,
    )

-- The admin is set once.
pub initialize_ok :
    (env : Env) (admin : Address) (w w' : World)
    → initialize env admin w ≡ ok (tt, w')
    → (w.admin ≡ none)
      × (env.authorizes admin ≡ true)
      × (w' ≡ record w { admin = some admin; stats = some no_stats })
unfolding initialize
initialize_ok env admin w w' h = ground arith

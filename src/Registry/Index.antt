-- ===== src/Registry/Index.antt =====
-- The index of the registry lists its records, in the order of their registration.
use stellar_stream_hive_cont.Base.{
  ℕ, ◌+◌, ◌-◌, ◌≤◌, ◌<◌, ◌≡◌, refl, sym, suc, [], ◌∷◌, ◌++◌, ==-refl, ap, ◌∙◌, some, min, arith,
  ◌==◌, inl, inr, Bool-cases,
}
use stellar_stream_hive_cont.Base.Dict.{lookup, insert, lookup-insert}
use stellar_stream_hive_cont.Base.Lists.{take, drop}
use stellar_stream_hive_cont.Base.Pages.{
  gather, gather-same, gather-suc, gather-page, saturating_add, u32_max,
}
use stellar_stream_hive_cont.Host.{Env, ok, commit_elim}
use stellar_stream_hive_cont.Registry.Types.{StreamRecord}
use stellar_stream_hive_cont.Registry.Storage.{World, get_stream_count}
use stellar_stream_hive_cont.Registry.Contract.{get_all_streams, get_streams_page, max_page_size}
use stellar_stream_hive_cont.Registry.Totals.{ids, ids-new, ids-replaced}
use stellar_stream_hive_cont.Registry.Effects.{
  Registered, register_stream_ok, update_stream_ok, initialize_ok,
}
use stellar_stream_hive_cont.Registry.Steps.{Call, invoke, Reachable, start, next}

pub record IsIndexed (w : World) : Type 0 where
  pub fits : get_stream_count w ≤ u32_max
  pub present : (j : ℕ) → j < get_stream_count w → (id : ℕ) × (lookup j w.stream_id_at ≡ some id)
  pub listed : gather (λ index. lookup index w.stream_id_at) (get_stream_count w) 0 ≡ ids w.records
  -- Each record stands under its own id.
  pub keyed : (id : ℕ) (r : StreamRecord) → lookup id w.records ≡ some r → r.stream_id ≡ id

suc_of : (n : ℕ) → n + 1 ≡ suc n
suc_of n = omega arith

register-IsIndexed :
    (id : ℕ) (r : StreamRecord) (w w' : World)
    → r.stream_id ≡ id
    → Registered id r w w'
    → IsIndexed w
    → IsIndexed w'
register-IsIndexed id r w w' key d v =
    let n = get_stream_count w in
    let count : get_stream_count w' ≡ n + 1 = ground (arith, d.counted) in
    record {
      fits = omega (arith, count, d.room);
      present = λ j l. elim (Bool-cases (j == n)) [
        | inl same ↦ (id, rw (d.listed, lookup-insert j n id w.stream_id_at, same) refl)
        | inr other ↦
            let (i, e) = v.present j (ground (arith, count)) in
            (i, rw (d.listed, lookup-insert j n id w.stream_id_at, other) e)
      ];
      listed =
          let q : 0 + n ≡ n = omega arith in
          let last : lookup (0 + n) w'.stream_id_at ≡ some id =
            rw (q, d.listed, lookup-insert n n id w.stream_id_at, ==-refl n) refl in
          let before =
            gather-same (λ index. lookup index w'.stream_id_at)
              (λ index. lookup index w.stream_id_at) n 0
              (λ j l u. rw (d.listed, lookup-insert j n id w.stream_id_at) (ground arith)) in
          rw (d.counted, d.stored, ids-new id r w.records d.unknown)
            (rw (suc_of n) (
              gather-suc (λ index. lookup index w'.stream_id_at) n 0 id last
              ∙ ap (λ l. l ++ (id ∷ [])) (before ∙ v.listed)));
      keyed = λ i s e.
          let e' = rw (d.stored, lookup-insert i id r w.records) at e in
          ground (arith, v.keyed i s);
    }

update-IsIndexed :
    (id : ℕ) (r s : StreamRecord) (w w' : World)
    → lookup id w.records ≡ some s
    → r.stream_id ≡ id
    → w'.records ≡ insert r.stream_id r w.records
    → w'.stream_id_at ≡ w.stream_id_at
    → w'.stream_count ≡ w.stream_count
    → IsIndexed w
    → IsIndexed w'
update-IsIndexed id r s w w' e key kept l c v =
    let t : w'.records ≡ insert id r w.records = kept ∙ ap (λ k. insert k r w.records) key in
    record {
      fits = rw c v.fits;
      present = rw (c, l) v.present;
      listed = rw (c, l, t, ids-replaced id r s w.records e) v.listed;
      keyed = λ i x f.
          let f' = rw (t, lookup-insert i id r w.records) at f in ground (arith, v.keyed i x);
    }

-- An index from the deployment on, and after each call.
pub invoke-IsIndexed :
    (env : Env) (c : Call) (w w' : World)
    → invoke env c w ≡ ok (tt, w')
    → IsIndexed w
    → IsIndexed w'
unfolding invoke
invoke-IsIndexed env (Call.initialize admin) w w' h v =
    let (_, _, e) = initialize_ok env admin w w' h in
    rw e (record { fits = v.fits; present = v.present; listed = v.listed; keyed = v.keyed })
invoke-IsIndexed env (Call.register_stream id sender recipient token amount) w w' h v =
    register-IsIndexed id _ w w' refl
      (register_stream_ok env id sender recipient token amount w w' h) v
invoke-IsIndexed env (Call.update_stream id withdrawn status) w w' h v =
    let d = update_stream_ok env id withdrawn status w w' h in
    let key = v.keyed id d.old d.found in
    update-IsIndexed id (record d.old { withdrawn = withdrawn; status = status }) d.old w w' d.found
      key d.stored d.ids_kept d.count_kept v

pub Reachable-IsIndexed : (w : World) → Reachable w → IsIndexed w
Reachable-IsIndexed _ start = record {
  fits = omega arith;
  present = λ j l. absurd (omega arith);
  listed = refl;
  keyed = λ id r e. absurd (ground arith);
}
Reachable-IsIndexed _ (next {w} r env c) =
    let v = Reachable-IsIndexed w r in
    commit_elim IsIndexed w (invoke env c w) v (λ w' h. invoke-IsIndexed env c w w' h v)

pub get_all_streams-ids : (w : World) → IsIndexed w → get_all_streams w ≡ ids w.records
get_all_streams-ids w v =
    let n = get_stream_count w in
    let q : min (saturating_add 0 n) n - 0 ≡ n = omega (arith, v.fits) in rw q v.listed

-- In every state that a registry can reach from its deployment: `get_all_streams` lists the ids of
-- the records in the order of their registration, and a page is the part of that list that starts
-- after the first `offset` and has at most `limit` and at most 50 elements.
pub get_streams_page-ids :
    (offset limit : ℕ) (w : World)
    → Reachable w
    → (get_all_streams w ≡ ids w.records)
      × (get_streams_page offset limit w
          ≡ take (min limit max_page_size) (drop offset (get_all_streams w)))
get_streams_page-ids offset limit w r =
    let v = Reachable-IsIndexed w r in
    let all = get_all_streams-ids w v in
    let page =
      gather-page (λ index. lookup index w.stream_id_at) (get_stream_count w) offset
        (min limit max_page_size) v.fits v.present in
    (all, page ∙ ap (λ l. take (min limit max_page_size) (drop offset l)) (v.listed ∙ sym all))

-- ===== src/Registry/Lasting.antt =====
-- How long the entries live that a call of the registry changes.
use stellar_stream_hive_cont.Base.{ℕ, ◌≡◌, refl, ◌⊎◌, inl, inr, true, arith, ==-refl}
use stellar_stream_hive_cont.Base.Dict.{lookup}
use stellar_stream_hive_cont.Host.{Env, Address, ok, commit}
use stellar_stream_hive_cont.Host.Lifetime.{
  Keeper, IsKeeper, Lifetimes, LivesOn, kept_alive-LivesOn, kept_alive_stays, inserted,
  settled_elim,
}
use stellar_stream_hive_cont.Base.Int.{ℤ}
use stellar_stream_hive_cont.Registry.Types.{StreamStatus}
use stellar_stream_hive_cont.Registry.Contract.{initialize, register_stream, update_stream}
use stellar_stream_hive_cont.Registry.Storage.{World, get_stream_count}
use stellar_stream_hive_cont.Registry.Effects.{initialize_ok, register_stream_ok, update_stream_ok}
use stellar_stream_hive_cont.Registry.Steps.{Call, invoke}
use stellar_stream_hive_cont.Registry.Lifetimes as Writes
use stellar_stream_hive_cont.Registry.Lifetimes.{
  Entry, same_entry, ledger_threshold, kept, writes, lifetimes,
}

-- What is stored in an entry is the same before and after.
abbrev pub Unchanged : Entry → World → World → Type 0
Unchanged Entry.instance_entry w w' =
    (w'.admin ≡ w.admin) × (w'.stream_count ≡ w.stream_count) × (w'.stats ≡ w.stats)
Unchanged (Entry.id_entry index) w w' = lookup index w'.stream_id_at ≡ lookup index w.stream_id_at
Unchanged (Entry.record_entry id) w w' = lookup id w'.records ≡ lookup id w.records

Unchanged-refl : (e : Entry) (w : World) → Unchanged e w w
Unchanged-refl Entry.instance_entry w = (refl, refl, refl)
Unchanged-refl (Entry.id_entry id) w = refl
Unchanged-refl (Entry.record_entry id) w = refl

-- An entry is the same after a call, or lives for `ledger_threshold` ledgers.
abbrev Lasts : ℕ → World → World → Lifetimes Entry → Entry → Type 0
Lasts now w w' l e = Unchanged e w w' ⊎ LivesOn now ledger_threshold e l

module _ (keeper : Keeper) (law : IsKeeper keeper) where
  same_entry_refl : (e : Entry) → same_entry e e ≡ true
  same_entry_refl Entry.instance_entry = refl
  same_entry_refl (Entry.id_entry id) = ==-refl id
  same_entry_refl (Entry.record_entry id) = ==-refl id

  kept-LivesOn :
      (env : Env) (e : Entry) (l : Lifetimes Entry)
      → LivesOn env.sequence ledger_threshold e (kept keeper env e l)
  kept-LivesOn env e l =
      kept_alive-LivesOn same_entry keeper law env.sequence _ _ e l (omega arith)
        (same_entry_refl e)

  kept_stays :
      (env : Env) (e x : Entry) (l : Lifetimes Entry)
      → LivesOn env.sequence ledger_threshold x l
      → LivesOn env.sequence ledger_threshold x (kept keeper env e l)
  kept_stays env e x l = kept_alive_stays same_entry keeper law env.sequence _ _ _ e x l

  register_stream-Lasts :
      (env : Env) (id : ℕ) (sender recipient token : Address) (amount : ℤ) (w w' : World)
      (l : Lifetimes Entry) (e : Entry)
      → register_stream env id sender recipient token amount w ≡ ok (tt, w')
      → Lasts env.sequence w w' (Writes.register_stream keeper env id (get_stream_count w) l) e
  register_stream-Lasts env id sender recipient token amount w w' l Entry.instance_entry run = inr (
      kept-LivesOn env Entry.instance_entry
        (Writes.add_stream_id keeper env (get_stream_count w) (Writes.set_record keeper env id l)))
  register_stream-Lasts env id sender recipient token amount w w' l (Entry.id_entry k) run =
      let d = register_stream_ok env id sender recipient token amount w w' run in
      let l' = Writes.set_record keeper env id l in
      inserted env.sequence ledger_threshold (get_stream_count w) k id w.stream_id_at
        w'.stream_id_at Entry.id_entry (Writes.register_stream keeper env id (get_stream_count w) l)
        d.listed
        (kept_stays env Entry.instance_entry (Entry.id_entry (get_stream_count w))
          (Writes.add_stream_id keeper env (get_stream_count w) l')
          (kept_stays env Entry.instance_entry (Entry.id_entry (get_stream_count w))
            (kept keeper env (Entry.id_entry (get_stream_count w)) l')
            (kept-LivesOn env (Entry.id_entry (get_stream_count w)) l')))
  register_stream-Lasts env id sender recipient token amount w w' l (Entry.record_entry k) run =
      let d = register_stream_ok env id sender recipient token amount w w' run in
      let l' = Writes.set_record keeper env id l in
      inserted env.sequence ledger_threshold id k _ w.records w'.records Entry.record_entry
        (Writes.register_stream keeper env id (get_stream_count w) l) d.stored
        (kept_stays env Entry.instance_entry (Entry.record_entry id)
          (Writes.add_stream_id keeper env (get_stream_count w) l')
          (kept_stays env Entry.instance_entry (Entry.record_entry id)
            (kept keeper env (Entry.id_entry (get_stream_count w)) l')
            (kept_stays env (Entry.id_entry (get_stream_count w)) (Entry.record_entry id) l'
              (kept-LivesOn env (Entry.record_entry id) l))))

  update_stream-Lasts :
      (env : Env) (id : ℕ) (withdrawn : ℤ) (status : StreamStatus) (w w' : World)
      (l : Lifetimes Entry) (e : Entry)
      → update_stream env id withdrawn status w ≡ ok (tt, w')
      → Lasts env.sequence w w' (Writes.update_stream keeper env (lookup id w.records) l) e
  update_stream-Lasts env id withdrawn status w w' l Entry.instance_entry run =
      let d = update_stream_ok env id withdrawn status w w' run in
      rw d.found (
        inr
          (kept-LivesOn env Entry.instance_entry (Writes.set_record keeper env d.old.stream_id l)))
  update_stream-Lasts env id withdrawn status w w' l (Entry.id_entry k) run =
      let d = update_stream_ok env id withdrawn status w w' run in inl (rw d.ids_kept refl)
  update_stream-Lasts env id withdrawn status w w' l (Entry.record_entry k) run =
      let d = update_stream_ok env id withdrawn status w w' run in
      let l' = Writes.set_record keeper env d.old.stream_id l in
      rw d.found (
        inserted env.sequence ledger_threshold d.old.stream_id k _ w.records w'.records
          Entry.record_entry (Writes.set_stats keeper env l') d.stored
          (kept_stays env Entry.instance_entry (Entry.record_entry d.old.stream_id) l'
            (kept-LivesOn env (Entry.record_entry d.old.stream_id) l)))

  initialize-Lasts :
      (env : Env) (admin : Address) (w w' : World) (l : Lifetimes Entry) (e : Entry)
      → initialize env admin w ≡ ok (tt, w')
      → Lasts env.sequence w w' (writes keeper env (Call.initialize admin) w l) e
  initialize-Lasts env admin w w' l Entry.instance_entry run =
      inr (kept-LivesOn env Entry.instance_entry (Writes.set_admin keeper env l))
  initialize-Lasts env admin w w' l (Entry.id_entry k) run =
      inl (rw (initialize_ok env admin w w' run).2 refl)
  initialize-Lasts env admin w w' l (Entry.record_entry k) run =
      inl (rw (initialize_ok env admin w w' run).2 refl)

  success-Lasts :
      (env : Env) (c : Call) (w w' : World) (l : Lifetimes Entry) (e : Entry)
      → invoke env c w ≡ ok (tt, w')
      → Lasts env.sequence w w' (writes keeper env c w l) e
  unfolding invoke
  success-Lasts env (Call.initialize admin) w w' l e run = initialize-Lasts env admin w w' l e run
  success-Lasts env (Call.register_stream id sender recipient token amount) w w' l e run =
      register_stream-Lasts env id sender recipient token amount w w' l e run
  success-Lasts env (Call.update_stream id withdrawn status) w w' l e run =
      update_stream-Lasts env id withdrawn status w w' l e run

  -- Over a host that keeps entries alive as it is asked to: after any call of the registry each
  -- ledger entry is the same as before, or it lives for 120,960 ledgers at least.
  pub changed_records-Lasts :
      (env : Env) (c : Call) (e : Entry) (w : World) (l : Lifetimes Entry)
      → let w' = commit w (invoke env c w) in
        Unchanged e w w' ⊎ LivesOn env.sequence ledger_threshold e (lifetimes keeper env c w l)
  unfolding lifetimes
  changed_records-Lasts env c e w l =
      settled_elim (λ w' l'. Lasts env.sequence w w' l' e) w l (writes keeper env c w l)
        (invoke env c w) (inl (Unchanged-refl e w)) (λ w' run. success-Lasts env c w w' l e run)

-- ===== src/Registry/Active.antt =====
-- The query for the active streams agrees with the running count of them.
use stellar_stream_hive_cont.Base.{
  ℕ, ◌≡◌, refl, ◌∙◌, sym, ap, some, [], ◌∷◌, arith, inl, inr, Bool-cases, ==-refl, if◌then◌else◌,
}
use stellar_stream_hive_cont.Base.Dict.{Dict, lookup, AllDistinct, insert-AllDistinct, lookup-tail}
use stellar_stream_hive_cont.Base.Lists.{length}
use stellar_stream_hive_cont.Host.{Env, ok, commit_elim}
use stellar_stream_hive_cont.Registry.Types.{StreamRecord, is_active}
use stellar_stream_hive_cont.Registry.Storage.{World, get_stats}
use stellar_stream_hive_cont.Registry.Contract.{
  initialize, active_ids, is_recorded_active, get_active_streams,
}
use stellar_stream_hive_cont.Registry.Totals.{ids, active_count}
use stellar_stream_hive_cont.Registry.Effects.{register_stream_ok, update_stream_ok, initialize_ok}
use stellar_stream_hive_cont.Registry.Index.{get_all_streams-ids}
use stellar_stream_hive_cont.Registry.Statistics.{Managed-IsCounted}
use stellar_stream_hive_cont.Registry.Steps.{Call, invoke, Managed, set_up}

invoke-AllDistinct :
    (env : Env) (c : Call) (w w' : World)
    → invoke env c w ≡ ok (tt, w')
    → AllDistinct w.records
    → AllDistinct w'.records
unfolding invoke
invoke-AllDistinct env (Call.initialize admin) w w' h v =
    let (_, _, e) = initialize_ok env admin w w' h in rw e v
invoke-AllDistinct env (Call.register_stream id sender recipient token amount) w w' h v =
    rw (register_stream_ok env id sender recipient token amount w w' h).stored
      (insert-AllDistinct id _ w.records v)
invoke-AllDistinct env (Call.update_stream id withdrawn status) w w' h v =
    let d = update_stream_ok env id withdrawn status w w' h in
    rw d.stored (insert-AllDistinct d.old.stream_id _ w.records v)

Managed-AllDistinct : (w : World) → Managed w → AllDistinct w.records
unfolding invoke initialize
Managed-AllDistinct _ (set_up env admin a) = rw a tt
Managed-AllDistinct _ (Managed.next {w} r env c) =
    commit_elim (λ w'. AllDistinct w'.records) w (invoke env c w) (Managed-AllDistinct w r)
      (λ w' h. invoke-AllDistinct env c w w' h (Managed-AllDistinct w r))

-- The records of the active streams, in the order of their registration.
abbrev pub active_records : Dict StreamRecord → Dict StreamRecord
active_records [] = []
active_records (e ∷ d) =
    let rest = active_records d in if is_active e.1.status then e ∷ rest else rest

-- A part of the records, of which the registry knows the status of each.
active_ids-ids :
    (w : World) (d : Dict StreamRecord)
    → AllDistinct d
    → ((k : ℕ) (r : StreamRecord)
        → lookup k d ≡ some r
        → is_recorded_active w k ≡ is_active r.status)
    → active_ids w (ids d) ≡ ids (active_records d)
active_ids-ids w [] h p = refl
active_ids-ids w (e ∷ d) h p =
    let here : is_recorded_active w e.0 ≡ is_active e.1.status =
      p e.0 e.1 (rw (==-refl e.0) refl) in
    let rest = active_ids-ids w d h.1 (λ k r l. p k r (lookup-tail k r e d h l)) in
    elim (Bool-cases (is_active e.1.status)) [
      | inl live ↦ rw (here, live) (ap (λ l. e.0 ∷ l) rest)
      | inr over ↦ rw (here, over) rest
    ]

length-active_records : (d : Dict StreamRecord) → length (ids (active_records d)) ≡ active_count d
length-active_records [] = refl
length-active_records (e ∷ d) =
    let rest = length-active_records d in
    elim (Bool-cases (is_active e.1.status)) [
      | inl live ↦ rw live (omega (arith, rest))
      | inr over ↦ rw over (omega (arith, rest))
    ]

-- In every state that a registry can reach whose first call is its setup by an admin who authorizes
-- it, `get_active_streams` lists exactly the ids of the active records, in the order of their
-- registration, and as many as the statistics count.
pub get_active_streams-active :
    (w : World)
    → Managed w
    → (get_active_streams w ≡ ids (active_records w.records))
      × (length (get_active_streams w) ≡ (get_stats w).active_streams)
get_active_streams-active w m =
    let (i, v) = Managed-IsCounted w m in
    let listed : get_active_streams w ≡ ids (active_records w.records) =
      ap (active_ids w) (get_all_streams-ids w i)
      ∙ active_ids-ids w w.records (Managed-AllDistinct w m) (λ k r l. rw l refl) in
    (listed, ap length listed ∙ length-active_records w.records ∙ sym v.active)

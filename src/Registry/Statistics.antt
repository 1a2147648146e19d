-- ===== src/Registry/Statistics.antt =====
-- The statistics of the registry agree with its records.
use stellar_stream_hive_cont.Base.{
  ℕ, ◌+◌, ◌≡◌, refl, ap, some, arith, true, if◌then◌else◌, inl, inr, Bool, Bool-cases, ◌∙◌,
}
use stellar_stream_hive_cont.Base.Int.{ℤ, pos, ◌+ℤ◌, ◌-ℤ◌, ◌≤ℤ◌, ltb_ℤ, int_laws, parts_of_eq}
use stellar_stream_hive_cont.Base.Dict.{lookup, insert, is_some}
use stellar_stream_hive_cont.Host.{Env, ok, commit_elim}
use stellar_stream_hive_cont.Registry.Types.{StreamStatus, StreamRecord, is_active}
use stellar_stream_hive_cont.Registry.Storage.{World, get_stream_count, get_stats}
use stellar_stream_hive_cont.Registry.Contract.{initialize, recount}
use stellar_stream_hive_cont.Registry.Totals.{
  sum_of, active_count, one_if, sum_of-new, sum_of-replaced, active_count-new,
  active_count-replaced,
}
use stellar_stream_hive_cont.Registry.Effects.{
  Registered, register_stream_ok, Updated, update_stream_ok, initialize_ok,
}
use stellar_stream_hive_cont.Registry.Index.{IsIndexed, invoke-IsIndexed, Reachable-IsIndexed}
use stellar_stream_hive_cont.Registry.Steps.{Call, invoke, Reachable, start, Managed, set_up}

abbrev amount_of : StreamRecord → ℤ
amount_of r = r.amount

abbrev withdrawn_of : StreamRecord → ℤ
withdrawn_of r = r.withdrawn

pub record IsCounted (w : World) : Type 0 where
  pub managed : is_some w.admin ≡ true
  pub counted : (get_stats w).total_streams ≡ get_stream_count w
  pub active : (get_stats w).active_streams ≡ active_count w.records
  pub streamed : (get_stats w).total_streamed ≡ sum_of amount_of w.records
  pub withdrawn : sum_of withdrawn_of w.records ≤ℤ (get_stats w).total_withdrawn

register-IsCounted :
    (id : ℕ) (r : StreamRecord) (w w' : World)
    → is_active r.status ≡ true
    → r.withdrawn ≡ pos 0
    → Registered id r w w'
    → IsCounted w
    → IsCounted w'
register-IsCounted id r w w' a z d v = record {
  managed = rw d.admin_kept v.managed;
  counted = rw (d.summed, d.counted) (ap (λ n. n + 1) v.counted);
  active =
      rw (d.summed, d.stored, active_count-new id r w.records d.unknown, a)
        (ap (λ n. n + 1) v.active);
  streamed =
      rw (d.summed, d.stored, sum_of-new amount_of id r w.records d.unknown)
        (ap (λ n. n +ℤ r.amount) v.streamed);
  withdrawn =
      rw (d.summed, d.stored, sum_of-new withdrawn_of id r w.records d.unknown, z)
        (omega (int_laws, v.withdrawn));
}

-- The new number of active streams.
recount_is :
    (was will : Bool) (n m before after : ℕ)
    → recount was will n ≡ some m
    → n ≡ before
    → after + one_if was ≡ before + one_if will
    → m ≡ after
recount_is was will n m before after h e q = ground arith

-- The total covers a sum whose summand `o` became `n`.
covers :
    (s s' o n t : ℤ)
    → s' +ℤ o ≡ s +ℤ n
    → s ≤ℤ t
    → s' ≤ℤ (if ltb_ℤ (pos 0) (n -ℤ o) then t +ℤ (n -ℤ o) else t)
covers s s' o n t e h = elim (Bool-cases (ltb_ℤ (pos 0) (n -ℤ o))) [
  | inl more ↦ rw more (omega (int_laws, parts_of_eq e))
  | inr less ↦ let l : n -ℤ o ≤ℤ pos 0 = ground arith in rw less (omega (int_laws, parts_of_eq e))
]

update-IsCounted :
    (id : ℕ) (withdrawn : ℤ) (status : StreamStatus) (w w' : World)
    → Updated id withdrawn status w w'
    → ((r : StreamRecord) → lookup id w.records ≡ some r → r.stream_id ≡ id)
    → IsCounted w
    → IsCounted w'
update-IsCounted id withdrawn status w w' d keyed v =
    let r : StreamRecord = record d.old { withdrawn = withdrawn; status = status } in
    let key = keyed d.old d.found in
    let stored : w'.records ≡ insert id r w.records =
      d.stored ∙ ap (λ k. insert k r w.records) key in
    record {
      managed = rw d.admin_kept v.managed;
      counted = rw (d.summed, d.count_kept) v.counted;
      active =
          rw (d.summed, stored)
            (recount_is _ _ _ _ _ _ d.recounted v.active
              (active_count-replaced id r d.old w.records d.found));
      streamed =
          rw (d.summed, stored)
            (omega (
              int_laws,
              parts_of_eq v.streamed,
              parts_of_eq (sum_of-replaced amount_of id r d.old w.records d.found),
            ));
      withdrawn =
          rw (d.summed, stored)
            (covers _ _ _ _ _ (sum_of-replaced withdrawn_of id r d.old w.records d.found)
              v.withdrawn);
    }

pub invoke-IsCounted :
    (env : Env) (c : Call) (w w' : World)
    → invoke env c w ≡ ok (tt, w')
    → IsIndexed w
    → IsCounted w
    → IsCounted w'
unfolding invoke
invoke-IsCounted env (Call.initialize admin) w w' h i v =
    let d = initialize_ok env admin w w' h in absurd (ground (arith, v.managed, d.0))
invoke-IsCounted env (Call.register_stream id sender recipient token amount) w w' h i v =
    register-IsCounted id _ w w' refl refl
      (register_stream_ok env id sender recipient token amount w w' h) v
invoke-IsCounted env (Call.update_stream id withdrawn status) w w' h i v =
    update-IsCounted id withdrawn status w w' (update_stream_ok env id withdrawn status w w' h)
      (i.keyed id) v

-- In every state that a registry can reach whose first call is its setup by an admin who authorizes
-- it, its records are indexed, the total of streams is the number of registered streams, the count of
-- active streams is the number of active records, the total streamed is the sum of the records'
-- amounts, and the total withdrawn is at least the sum of what the records say is withdrawn.
pub Managed-IsCounted : (w : World) → Managed w → IsIndexed w × IsCounted w
unfolding invoke initialize
Managed-IsCounted _ (set_up env admin a) = (
  Reachable-IsIndexed _ (Reachable.next start env (Call.initialize admin)),
  rw a (record {
    managed = refl;
    counted = refl;
    active = refl;
    streamed = refl;
    withdrawn = omega arith;
  }),
)
Managed-IsCounted _ (Managed.next {w} r env c) =
    let (i, v) = Managed-IsCounted w r in
    commit_elim (λ w'. IsIndexed w' × IsCounted w') w (invoke env c w) (i, v)
      (λ w' h. (invoke-IsIndexed env c w w' h i, invoke-IsCounted env c w w' h i v))

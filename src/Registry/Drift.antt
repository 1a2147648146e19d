-- ===== src/Registry/Drift.antt =====
-- Where the statistics of the registry part from its records.
use stellar_stream_hive_cont.Base.{
  ℕ, ◌≡◌, refl, sym, ◌∙◌, ap, ◌==◌, some, inl, inr, arith, Bool-cases, if◌then◌else◌, ==-refl,
  ==→eq,
}
use stellar_stream_hive_cont.Base.Int.{ℤ, pos, ◌+ℤ◌, ◌-ℤ◌, ◌≤ℤ◌, ◌<ℤ◌, ltb_ℤ, int_laws}
use stellar_stream_hive_cont.Base.Dict.{lookup, lookup-insert}
use stellar_stream_hive_cont.Host.{Env, ok}
use stellar_stream_hive_cont.Registry.Types.{StreamRecord}
use stellar_stream_hive_cont.Registry.Storage.{World, get_stats}
use stellar_stream_hive_cont.Registry.Contract.{update_stream}
use stellar_stream_hive_cont.Registry.Effects.{update_stream_known}
use stellar_stream_hive_cont.Registry.Steps.{Reachable}
use stellar_stream_hive_cont.Registry.Index.{Reachable-IsIndexed}

not_more : (a b : ℤ) (t : ℤ) → a ≤ℤ b → (if ltb_ℤ (pos 0) (a -ℤ b) then t +ℤ (a -ℤ b) else t) ≡ t
not_more a b t h = let l : a -ℤ b ≤ℤ pos 0 = omega int_laws in ground arith

more :
    (a b : ℤ) (t : ℤ)
    → a <ℤ b
    → (if ltb_ℤ (pos 0) (b -ℤ a) then t +ℤ (b -ℤ a) else t) ≡ t +ℤ (b -ℤ a)
more a b t h = let l : pos 1 ≤ℤ b -ℤ a = omega int_laws in ground arith

-- In a state that the registry can reach, for a registered stream: a report of a smaller withdrawn
-- amount and then a report of the old amount and status again leave every record as it was, but the
-- total withdrawn is higher than before by the difference of the two amounts.
pub update_stream_twice :
    (env : Env) (id : ℕ) (lower : ℤ) (r : StreamRecord) (w v u : World)
    → Reachable w
    → lookup id w.records ≡ some r
    → lower <ℤ r.withdrawn
    → update_stream env id lower r.status w ≡ ok (tt, v)
    → update_stream env id r.withdrawn r.status v ≡ ok (tt, u)
    → ((i : ℕ) → lookup i u.records ≡ lookup i w.records)
      × ((get_stats u).total_withdrawn ≡ (get_stats w).total_withdrawn +ℤ (r.withdrawn -ℤ lower))
      × ((get_stats w).total_withdrawn <ℤ (get_stats u).total_withdrawn)
update_stream_twice env id lower r w v u reached found less down up =
    let key = (Reachable-IsIndexed w reached).keyed id r found in
    let low : StreamRecord = record r { withdrawn = lower } in
    let (put, first) = update_stream_known env id lower r.status r w v found key down in
    let there : lookup id v.records ≡ some low =
      ap (lookup id) put ∙ lookup-insert id id low w.records ∙ rw (==-refl id) refl in
    let (put', second) = update_stream_known env id r.withdrawn r.status low v u there key up in
    let total =
      second
      ∙ more lower r.withdrawn (get_stats v).total_withdrawn less
      ∙ ap (λ t. t +ℤ (r.withdrawn -ℤ lower))
          (first ∙ not_more lower r.withdrawn (get_stats w).total_withdrawn (omega arith)) in
    (
      λ i. ap (lookup i) put' ∙ lookup-insert i id r v.records ∙ (elim (Bool-cases (i == id)) [
        | inl here ↦ rw (here, ==→eq i id here) (sym found)
        | inr other ↦
            rw other (ap (lookup i) put ∙ lookup-insert i id low w.records ∙ rw other refl)
      ]),
      total,
      rw total (omega int_laws),
    )

-- ===== src/Registry/Tests.antt =====
-- The theorems on the registry at a concrete run.
use stellar_stream_hive_cont.Base.{◌≡◌, ◌+◌, refl, [], ◌∷◌, some, arith, ℕ}
use stellar_stream_hive_cont.Base.Int.{pos, ◌+ℤ◌, ◌-ℤ◌, ◌<ℤ◌, checked_add, checked_sub}
use stellar_stream_hive_cont.Base.Lists.{length, take, drop}
use stellar_stream_hive_cont.Base.Dict.{lookup}
use stellar_stream_hive_cont.Host.{Env, ok, commit}
use stellar_stream_hive_cont.Fixtures.{signed_by_7}
use stellar_stream_hive_cont.Registry.Types.{StreamRecord, active, completed}
use stellar_stream_hive_cont.Registry.Storage.{World, deployed}
use stellar_stream_hive_cont.Registry.Contract.{
  initialize, register_stream, update_stream, get_all_streams, get_streams_page, get_active_streams,
  get_stats, get_stream_record, stream_count,
}
use stellar_stream_hive_cont.Registry.Totals.{ids}
use stellar_stream_hive_cont.Registry.Steps.{Call, invoke, Reachable, start, Managed, set_up}
use stellar_stream_hive_cont.Registry.Index.{IsIndexed, get_streams_page-ids}
use stellar_stream_hive_cont.Registry.Statistics.{IsCounted, Managed-IsCounted}
use stellar_stream_hive_cont.Registry.Effects.{new_record}
use stellar_stream_hive_cont.Registry.Records.{get_stream_record-register_update}
use stellar_stream_hive_cont.Registry.Drift.{update_stream_twice}
use stellar_stream_hive_cont.Stream.Queries.{slice}
use stellar_stream_hive_cont.Paging.{slice_loop, stream_ids_page_loop, pages_end}
use stellar_stream_hive_cont.Registry.Late
use stellar_stream_hive_cont.Registry.Late.{late_initialize}
use stellar_stream_hive_cont.Registry.Active.{active_records, get_active_streams-active}
use stellar_stream_hive_cont.Host.Lifetime.{LivesOn}
use stellar_stream_hive_cont.Fixtures.{patient, patient-IsKeeper}
use stellar_stream_hive_cont.Registry.Lifetimes.{Entry, ledger_threshold, lifetimes}
use stellar_stream_hive_cont.Registry.Lasting.{Unchanged, changed_records-Lasts}
use stellar_stream_hive_cont.Base.{◌⊎◌, none}

abbrev by_7 : Env
by_7 = signed_by_7 70 3

-- The account 7 sets the registry up; the streams 5 and 4 are registered, and 5 is reported complete.
abbrev ready : World
ready = commit deployed (invoke by_7 (Call.initialize 7) deployed)

abbrev one : World
one = commit ready (invoke by_7 (Call.register_stream 5 7 8 3 (pos 100)) ready)

abbrev two : World
two = commit one (invoke by_7 (Call.register_stream 4 7 9 3 (pos 50)) one)

abbrev reported : World
reported = commit two (invoke by_7 (Call.update_stream 5 (pos 100) completed) two)

reported-Managed : Managed reported
reported-Managed =
    Managed.next (Managed.next (Managed.next (set_up by_7 7 refl) by_7 _) by_7 _) by_7 _

reported-Reachable : Reachable reported
reported-Reachable =
    Reachable.next (Reachable.next (Reachable.next (Reachable.next start by_7 _) by_7 _) by_7 _)
      by_7 _

active-run : get_active_streams reported ≡ 4 ∷ []
unfolding invoke initialize register_stream update_stream checked_add checked_sub ◌+ℤ◌ ◌-ℤ◌
active-run = refl

get_streams_page-ids_example :
    (get_all_streams reported ≡ ids reported.records)
    × (get_streams_page 1 9 reported ≡ take 9 (drop 1 (get_all_streams reported)))
get_streams_page-ids_example = get_streams_page-ids 1 9 reported reported-Reachable

Managed-IsCounted_example : IsIndexed reported × IsCounted reported
Managed-IsCounted_example = Managed-IsCounted reported reported-Managed

get_active_streams-active_example :
    (get_active_streams reported ≡ ids (active_records reported.records))
    × (length (get_active_streams reported) ≡ (get_stats reported).active_streams)
get_active_streams-active_example = get_active_streams-active reported reported-Managed

-- The entries of the registry do not exist before its first call, a registration.
changed_records-Lasts_example :
    let c = Call.register_stream 5 7 8 3 (pos 100) in
    Unchanged (Entry.record_entry 5) deployed (commit deployed (invoke by_7 c deployed))
    ⊎ LivesOn 3 ledger_threshold
        (Entry.record_entry 5)
        (lifetimes patient by_7 c deployed (λ e. none))
changed_records-Lasts_example =
    changed_records-Lasts patient patient-IsKeeper by_7 (Call.register_stream 5 7 8 3 (pos 100))
      (Entry.record_entry 5) deployed (λ e. none)

-- The stream 6 is registered, and 40 units are reported as withdrawn.
abbrev three : World
three = commit reported (register_stream by_7 6 7 8 3 (pos 60) reported)

abbrev partly : World
partly = commit three (update_stream by_7 6 (pos 40) active three)

get_stream_record-register_update_example :
    let r = new_record 6 7 8 3 (pos 60) in
    (get_stream_record 6 three ≡ ok r)
    × (get_stream_record 6 partly ≡ ok (record r { withdrawn = pos 40; status = active }))
unfolding invoke initialize register_stream update_stream checked_add checked_sub ◌+ℤ◌ ◌-ℤ◌
get_stream_record-register_update_example =
    get_stream_record-register_update by_7 6 6 7 8 3 (pos 60) (pos 40) active reported three partly
      refl refl

-- The stream 5 is reported with 60 units withdrawn, and with 100 again.
abbrev complete : StreamRecord
complete = record (new_record 5 7 8 3 (pos 100)) { withdrawn = pos 100; status = completed }

abbrev lowered : World
lowered = commit reported (update_stream by_7 5 (pos 60) completed reported)

abbrev raised : World
raised = commit lowered (update_stream by_7 5 (pos 100) completed lowered)

update_stream_twice_example :
    ((i : ℕ) → lookup i raised.records ≡ lookup i reported.records)
    × ((get_stats raised).total_withdrawn
        ≡ (get_stats reported).total_withdrawn +ℤ (pos 100 -ℤ pos 60))
    × ((get_stats reported).total_withdrawn <ℤ (get_stats raised).total_withdrawn)
unfolding invoke initialize register_stream update_stream checked_add checked_sub ◌+ℤ◌ ◌-ℤ◌
update_stream_twice_example =
    update_stream_twice by_7 5 (pos 60) complete reported lowered raised reported-Reachable refl
      (omega arith) refl refl

-- A registry in which the stream 5 is registered before the setup.
abbrev early : World
early = commit deployed (register_stream by_7 5 7 8 3 (pos 100) deployed)

abbrev begun : World
begun = commit early (invoke by_7 (Call.initialize 7) early)

abbrev begun_two : World
begun_two = commit begun (invoke by_7 (Call.register_stream 4 7 9 3 (pos 50)) begun)

late_initialize_example :
    (get_stats begun_two).total_streams + stream_count early ≡ stream_count begun_two
unfolding register_stream checked_add ◌+ℤ◌
late_initialize_example =
    late_initialize by_7 7 early begun_two refl refl
      (Late.next Late.same by_7 (Call.register_stream 4 7 9 3 (pos 50)))

pages_end_example :
    (slice_loop 51 (4 ∷ 7 ∷ 9 ∷ []) 1 4294967295 ≡ some (slice (4 ∷ 7 ∷ 9 ∷ []) 1 4294967295))
    × (stream_ids_page_loop 51 1 50 reported ≡ some (get_streams_page 1 4294967295 reported))
unfolding invoke initialize register_stream update_stream checked_add checked_sub ◌+ℤ◌ ◌-ℤ◌
pages_end_example = pages_end (4 ∷ 7 ∷ 9 ∷ []) 1 4294967295 reported (omega arith) (omega arith)

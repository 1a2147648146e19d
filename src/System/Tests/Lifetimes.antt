-- ===== src/System/Tests/Lifetimes.antt =====
-- The theorems on how long the entries of the stream contract live, at a concrete system.
use stellar_stream_hive_cont.Base.{◌≡◌, refl, ◌⊎◌, some, List, [], ◌∷◌}
use stellar_stream_hive_cont.Base.Int.{pos}
use stellar_stream_hive_cont.Host.{Env, commit}
use stellar_stream_hive_cont.Host.Lifetime.{Lifetimes, LivesOn}
use stellar_stream_hive_cont.Fixtures.{
  patient, patient-IsKeeper, stream_address, signed_by_7, ledger,
}
use stellar_stream_hive_cont.Stream.Steps.{Call, invoke}
use stellar_stream_hive_cont.Stream.Lifetimes.{Entry, ledger_threshold, lifetimes}
use stellar_stream_hive_cont.Stream.Unchanged.{Unchanged}
use stellar_stream_hive_cont.Stream.Lasting.{changed_streams-Lasts}
use stellar_stream_hive_cont.Stream.Expiry.{live, instance_expires}
use stellar_stream_hive_cont.System.Tests.{running, by_8, creation}

-- In `running` every entry lives until the ledger 5,000.
abbrev started : Lifetimes Entry
started e = some 5000

changed_streams-Lasts_example :
    let c = Call.withdraw 8 1 (pos 30) in
    Unchanged (Entry.stream_entry 1) running (commit running (invoke ledger by_8 c running))
    ⊎ LivesOn 15 ledger_threshold
        (Entry.stream_entry 1)
        (lifetimes ledger patient by_8 c running started)
changed_streams-Lasts_example =
    changed_streams-Lasts ledger patient patient-IsKeeper by_8 (Call.withdraw 8 1 (pos 30))
      (Entry.stream_entry 1) running started

-- One more stream is created, and the first is drawn from and cancelled.
abbrev daily : List (Env × Call)
daily =
    (signed_by_7 stream_address 8, creation)
    ∷ (by_8, Call.withdraw_max 8 1)
    ∷ (signed_by_7 stream_address 16, Call.cancel_stream 7 1)
    ∷ []

instance_expires_example :
    live ledger patient daily running started Entry.instance_entry ≡ some 5000
instance_expires_example =
    instance_expires ledger patient daily running started 5000 (tt, (tt, (tt, tt))) refl

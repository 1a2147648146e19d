-- ===== src/System/Tests/Lives.antt =====
-- The theorems on the life of a stream, its events and the configuration, at a concrete system.
use stellar_stream_hive_cont.Base.{◌≡◌, refl, ◌==◌, ◌||◌, ◌⊎◌, some, true, false, arith}
use stellar_stream_hive_cont.Base.Int.{pos, ◌+ℤ◌, ◌-ℤ◌, checked_add, checked_sub}
use stellar_stream_hive_cont.Base.Dict.{lookup, insert}
use stellar_stream_hive_cont.Host.{Env, err, trap, commit, value_of}
use stellar_stream_hive_cont.Fixtures.{stream_address, signed_by_7, ledger}
use stellar_stream_hive_cont.Vault.Steps
use stellar_stream_hive_cont.Vault.Contract.{initialize as set_up_vault, deposit}
use stellar_stream_hive_cont.Stream.Types
use stellar_stream_hive_cont.Stream.Types.{Stream, pending, completed, cancelled}
use stellar_stream_hive_cont.Stream.Math.{compute_status}
use stellar_stream_hive_cont.Stream.Storage.{set_paused}
use stellar_stream_hive_cont.Stream.Contract
use stellar_stream_hive_cont.Stream.Contract.{create_stream}
use stellar_stream_hive_cont.Stream.Steps.{Call, invoke, Ran, Runs}
use stellar_stream_hive_cont.Stream.Diagram.{Follows}
use stellar_stream_hive_cont.Stream.History.{stream-Continues}
use stellar_stream_hive_cont.Stream.Pausing.{paused-create_stream}
use stellar_stream_hive_cont.Stream.Access.{Permitted, stream_changes-Permitted}
use stellar_stream_hive_cont.Stream.Configuration.{
  SettingsKept, SetUp, Administered, settings_change-Administered,
}
use stellar_stream_hive_cont.Stream.Log.{rebuilt, seen_at, rebuilt-streams}
use stellar_stream_hive_cont.Stream.Overflow.{withdraws, overflow_stuck}
use stellar_stream_hive_cont.System.Deployment.{deployed_vault}
use stellar_stream_hive_cont.System.Tests.{S, vault_ready, running, granted, by_8, running-Ran}

-- The recipient takes 30 units at the ledger 15, and the sender cancels at the ledger 17.
abbrev by_7 : Env
by_7 = signed_by_7 stream_address 17

abbrev taken : S
taken = commit running (invoke ledger by_8 (Call.withdraw 8 1 (pos 30)) running)

abbrev ended : S
ended = commit taken (invoke ledger by_7 (Call.cancel_stream 7 1) taken)

ended-Ran : Ran ledger vault_ready.outside ended
ended-Ran =
    Ran.call (Ran.call running-Ran by_8 (Call.withdraw 8 1 (pos 30))) by_7 (Call.cancel_stream 7 1)

stream-Continues_example :
    (s' : Stream) × (lookup 1 ended.streams ≡ some s')
    × Follows 5 17 granted s'
    × ((compute_status granted 5 ≡ completed) ⊎ (compute_status granted 5 ≡ cancelled)
        → compute_status s' 17 ≡ compute_status granted 5)
unfolding Steps.invoke invoke deployed_vault checked_add checked_sub ◌+ℤ◌ ◌-ℤ◌ set_up_vault
    Contract.initialize create_stream deposit
stream-Continues_example =
    stream-Continues ledger vault_ready.outside 1 5 17 granted running ended running-Ran refl (
      Runs.call (Runs.call Runs.stay by_8 (Call.withdraw 8 1 (pos 30)) 15 refl (omega arith)) by_7
        (Call.cancel_stream 7 1) 17 refl (omega arith))

stream_changes-Permitted_example : Permitted by_7 (lookup 1 taken.streams) (lookup 1 ended.streams)
stream_changes-Permitted_example =
    stream_changes-Permitted ledger vault_ready.outside by_7 (Call.cancel_stream 7 1) 1 taken
      (Ran.call running-Ran by_8 (Call.withdraw 8 1 (pos 30)))

rebuilt-streams_example : rebuilt 1 ended.events ≡ seen_at (lookup 1 ended.streams)
rebuilt-streams_example = rebuilt-streams ledger vault_ready.outside ended ended-Ran 1

paused-create_stream_example :
    value_of (create_stream ledger by_7 7 8 3 (pos 100) 20 30 20 true (set_paused true running))
    ≡ err Types.paused
paused-create_stream_example =
    (paused-create_stream ledger by_7 7 8 3 (pos 100) 20 30 20 1 true false running).0

-- The accounts 7 and 9 sign that the admin's role goes from the one to the other.
abbrev by_both : Env
by_both = record by_7 { authorizes = λ a. a == 7 || a == 9 }

handed_over :
    (commit running (invoke ledger by_both (Call.transfer_admin 9) running)).admin ≡ some 9
unfolding Steps.invoke invoke deployed_vault checked_add checked_sub ◌+ℤ◌ ◌-ℤ◌ set_up_vault
    Contract.initialize Contract.transfer_admin create_stream deposit
handed_over = refl

-- The admin cannot hand the role to itself.
to_itself : value_of (invoke ledger by_both (Call.transfer_admin 7) running) ≡ trap
unfolding Steps.invoke invoke deployed_vault checked_add checked_sub ◌+ℤ◌ ◌-ℤ◌ set_up_vault
    Contract.initialize Contract.transfer_admin create_stream deposit
to_itself = refl

settings_change-Administered_example :
    let w' = commit running (invoke ledger by_both (Call.transfer_admin 9) running) in
    SettingsKept running w' ⊎ SetUp by_both running w' ⊎ Administered by_both running w'
settings_change-Administered_example =
    settings_change-Administered ledger by_both (Call.transfer_admin 9) running

-- A deposit of 2^126 units over ten ledgers, whose product with the time passed is no i128 at the end.
abbrev vast : Stream
vast = record granted { total_amount = pos 85070591730234615865843651857942052864 }

abbrev with_vast : S
with_vast = record running { streams = insert 1 vast running.streams }

overflow_stuck_example :
    commit with_vast
      (invoke ledger (record by_8 { sequence = 20 }) (Call.withdraw 8 1 (pos 1)) with_vast)
    ≡ with_vast
unfolding Steps.invoke invoke deployed_vault checked_add checked_sub ◌+ℤ◌ ◌-ℤ◌ set_up_vault
    Contract.initialize create_stream deposit
overflow_stuck_example =
    overflow_stuck ledger (record by_8 { sequence = 20 }) (Call.withdraw 8 1 (pos 1)) 1 20 vast
      with_vast (withdraws 8 (pos 1)) refl (omega arith) (λ e. cc) (omega arith) (omega arith)
      (omega arith)

-- ===== src/System/Tests.antt =====
-- The theorems on the two contracts together, at a run of a concrete system.
mod Lives
mod Payments
mod Lifetimes
use stellar_stream_hive_cont.Base.{map, ◌≡◌, refl, some, true, ◌==◌, arith}
use stellar_stream_hive_cont.Base.Int.{pos, ◌+ℤ◌, ◌-ℤ◌, checked_add, checked_sub}
use stellar_stream_hive_cont.Base.Dict.{lookup}
use stellar_stream_hive_cont.Host.{Env, ok, commit}
use stellar_stream_hive_cont.Fixtures.{
  Balances, bank, bank-IsToken, rich, vault_address, stream_address, signed_by_7, callee, ledger,
  ledger-IsDeployed,
}
use stellar_stream_hive_cont.Vault.Storage
use stellar_stream_hive_cont.Vault.Storage.{get_stream_balance}
use stellar_stream_hive_cont.Vault.Steps
use stellar_stream_hive_cont.Stream.Types.{Stream, pending}
use stellar_stream_hive_cont.Stream.Storage.{World, deployed}
use stellar_stream_hive_cont.Stream.Steps as Alone
use stellar_stream_hive_cont.Stream.Steps.{Call, invoke, Ran}
use stellar_stream_hive_cont.Stream.Index.{streams_where, is_sent_by, is_received_by}
use stellar_stream_hive_cont.Stream.Listing.{get_streams_by-streams}
use stellar_stream_hive_cont.Stream.Pages.{get_streams_page-take}
use stellar_stream_hive_cont.Stream.Queries.{
  refresh, get_streams_by_sender, get_streams_by_recipient, get_streams_by_sender_page,
  get_streams_by_recipient_page,
}
use stellar_stream_hive_cont.Stream.Solvency.{IsSolvent}
use stellar_stream_hive_cont.Stream.Reach.{Reachable-IsSolvent}
use stellar_stream_hive_cont.Stream.Contract
use stellar_stream_hive_cont.Stream.Contract.{withdraw, create_stream}
use stellar_stream_hive_cont.Vault.Contract.{initialize as set_up_vault, deposit}
use stellar_stream_hive_cont.System.Deployment.{deployed_vault}
use stellar_stream_hive_cont.System.Steps.{Reachable, start, next, streams, vaults}
use stellar_stream_hive_cont.System.Solvency.{IsSound, Reachable-IsSound}
use stellar_stream_hive_cont.System.Available.{withdraw_available}
use stellar_stream_hive_cont.System.Blocked.{create_stream-blocked}

abbrev pub S : Type 0
S = World (Storage.World Balances)

abbrev at_start : S
at_start = deployed (Storage.deployed rich)

-- The account 7 sets both contracts up, and creates a stream of 100 units of token 3 to 8 over the
-- ledgers 10 to 20.
abbrev pub vault_ready : S
vault_ready = record at_start {
  outside = commit at_start.outside (
      Steps.invoke bank (signed_by_7 vault_address 1) (Steps.Call.initialize 7 stream_address)
        at_start.outside);
}

abbrev pub set_up : Call
set_up = Call.initialize 7 vault_address

abbrev pub creation : Call
creation = Call.create_stream 7 8 3 (pos 100) 10 20 10 true

abbrev pub ready : S
ready = commit vault_ready (invoke ledger (signed_by_7 stream_address 2) set_up vault_ready)

abbrev pub running : S
running = commit ready (invoke ledger (signed_by_7 stream_address 5) creation ready)

abbrev pub granted : Stream
granted = record {
  id = 1;
  sender = 7;
  recipient = 8;
  token = 3;
  total_amount = pos 100;
  withdrawn = pos 0;
  start_ledger = 10;
  end_ledger = 20;
  cliff_ledger = 10;
  cancellable = true;
  status = pending;
  created_at = 5;
  cancelled_at_ledger = 0;
}

creation-run : lookup 1 running.streams ≡ some granted
unfolding Steps.invoke invoke deployed_vault checked_add checked_sub ◌+ℤ◌ ◌-ℤ◌ set_up_vault
    Contract.initialize create_stream deposit
creation-run = refl

pub running_reached : Reachable bank ledger stream_address vault_address callee rich 5 running
unfolding Steps.invoke invoke
running_reached =
    next
      (next
        (next (start 0) (
          vaults (signed_by_7 vault_address 1) (Steps.Call.initialize 7 stream_address) 1
            (omega arith) refl refl refl refl))
        (streams (signed_by_7 stream_address 2) set_up 2 refl (omega arith) refl refl refl))
      (streams (signed_by_7 stream_address 5) creation 5 refl (omega arith) refl refl (omega arith))

Reachable-IsSound_example :
    IsSound bank bank-IsToken ledger stream_address vault_address callee ledger-IsDeployed 5 running
Reachable-IsSound_example =
    Reachable-IsSound bank bank-IsToken ledger stream_address vault_address callee ledger-IsDeployed
      rich 5 running (λ token. omega arith) running_reached

-- What the theorems on a sound state start from.
pub running-IsSound :
    IsSound bank bank-IsToken ledger stream_address vault_address callee ledger-IsDeployed 5 running
running-IsSound =
    Reachable-IsSound bank bank-IsToken ledger stream_address vault_address callee ledger-IsDeployed
      rich 5 running (λ token. omega arith) running_reached

-- The recipient signs at the ledger 15, where half is granted.
abbrev pub by_8 : Env
by_8 = record { sequence = 15; current_contract = stream_address; authorizes = λ a. a == 8 }

-- The run, as the stream contract alone sees it, beside the vault that is set up already.
pub running-Ran : Ran ledger vault_ready.outside running
unfolding Steps.invoke set_up_vault
running-Ran =
    Ran.call (Ran.call Ran.start (signed_by_7 stream_address 2) set_up)
      (signed_by_7 stream_address 5) creation

get_streams_by-streams_example :
    (get_streams_by_sender by_8 7 running
      ≡ map (refresh by_8) (streams_where (is_sent_by 7) running.streams))
    × (get_streams_by_recipient by_8 7 running
        ≡ map (refresh by_8) (streams_where (is_received_by 7) running.streams))
get_streams_by-streams_example =
    get_streams_by-streams ledger vault_ready.outside by_8 7 running running-Ran

get_streams_page-take_example :
    (get_streams_by_sender_page by_8 7 0 9 running ≡ get_streams_by_sender by_8 7 running)
    × (get_streams_by_recipient_page by_8 7 0 9 running ≡ get_streams_by_recipient by_8 7 running)
unfolding Steps.invoke invoke deployed_vault checked_add checked_sub ◌+ℤ◌ ◌-ℤ◌ set_up_vault
    Contract.initialize create_stream deposit
get_streams_page-take_example =
    get_streams_page-take ledger vault_ready.outside by_8 7 0 9 running running-Ran (omega arith)
      (omega arith)

-- Before that stream exists, 7 deposits a unit of token 4 for its id.
abbrev squatted : S
squatted = record ready {
  outside = commit ready.outside (
      Steps.invoke bank (signed_by_7 vault_address 3) (Steps.Call.deposit 7 4 (pos 1) 1)
        ready.outside);
}

create_stream-blocked_example :
    commit squatted (invoke ledger (signed_by_7 stream_address 5) creation squatted) ≡ squatted
unfolding Steps.invoke invoke deployed_vault checked_add checked_sub ◌+ℤ◌ ◌-ℤ◌ set_up_vault
    Contract.initialize deposit
create_stream-blocked_example =
    create_stream-blocked bank ledger vault_address callee ledger-IsDeployed
      (signed_by_7 stream_address 5) 7 8 3 4 (pos 100) 10 20 10 true squatted refl refl
      (omega arith)

-- ===== src/Stream/Lifetimes.antt =====
-- How long the entries of the stream contract live: what contracts/stream/src/storage.rs asks of the
-- host in its write helpers, and the entry points of lib.rs, as far as they write.
use stellar_stream_hive_cont.Base.{
  ℕ, ◌+◌, Bool, true, false, Option, none, some, ◌==◌, if◌then◌else◌,
}
use stellar_stream_hive_cont.Base.Int.{ℤ, pos, eqb_ℤ}
use stellar_stream_hive_cont.Base.Dict.{lookup}
use stellar_stream_hive_cont.Host.{Env, Address, Outcome, ok, err, trap}
use stellar_stream_hive_cont.Host.Invoke.{Invoker}
use stellar_stream_hive_cont.Host.Lifetime.{Keeper, Lifetimes, written, kept_alive, settled}
use stellar_stream_hive_cont.Stream.Types.{Stream, StreamError}
use stellar_stream_hive_cont.Stream.Storage.{World, current_id}
use stellar_stream_hive_cont.Stream.Math.{withdrawable_amount}
use stellar_stream_hive_cont.Stream.Steps.{Call, invoke}

-- The ledger entries: the instance, and one for each persistent key.
pub data Entry : Type 0 where
  instance_entry : Entry
  stream_entry : ℕ → Entry
  sender_entry : Address → Entry
  recipient_entry : Address → Entry

abbrev pub same_entry : Entry → Entry → Bool
same_entry Entry.instance_entry Entry.instance_entry = true
same_entry (Entry.stream_entry a) (Entry.stream_entry b) = a == b
same_entry (Entry.sender_entry a) (Entry.sender_entry b) = a == b
same_entry (Entry.recipient_entry a) (Entry.recipient_entry b) = a == b
same_entry _ _ = false

abbrev pub ledger_threshold : ℕ
ledger_threshold = 120960

abbrev pub ledger_bump : ℕ
ledger_bump = 241920

module _ (keeper : Keeper) where
  -- A write of an entry, and `extend_ttl` on it.
  abbrev pub kept : Env → Entry → Lifetimes Entry → Lifetimes Entry
  kept env e = kept_alive same_entry keeper env.sequence ledger_threshold ledger_bump e

  abbrev pub set_admin : Env → Lifetimes Entry → Lifetimes Entry
  set_admin env = kept env Entry.instance_entry

  abbrev pub set_paused : Env → Lifetimes Entry → Lifetimes Entry
  set_paused env = kept env Entry.instance_entry

  abbrev pub set_vault : Env → Lifetimes Entry → Lifetimes Entry
  set_vault env = kept env Entry.instance_entry

  -- The counter is written, and nothing is extended.
  abbrev pub next_stream_id : Env → Lifetimes Entry → Lifetimes Entry
  next_stream_id env = written same_entry keeper env.sequence Entry.instance_entry

  abbrev pub set_stream : Env → ℕ → Lifetimes Entry → Lifetimes Entry
  set_stream env id = kept env (Entry.stream_entry id)

  abbrev pub add_sender_stream : Env → Address → Lifetimes Entry → Lifetimes Entry
  add_sender_stream env sender = kept env (Entry.sender_entry sender)

  abbrev pub add_recipient_stream : Env → Address → Lifetimes Entry → Lifetimes Entry
  add_recipient_stream env recipient = kept env (Entry.recipient_entry recipient)

  abbrev pub initialize : Env → Lifetimes Entry → Lifetimes Entry
  initialize env l = set_vault env (set_admin env l)

  -- `set_stream` of a new version of a stored stream.
  abbrev pub set_found : Env → Option Stream → Lifetimes Entry → Lifetimes Entry
  set_found env none l = l
  set_found env (some s) l = set_stream env s.id l

  -- `withdraw_max` writes only where there is something to withdraw.
  abbrev pub draw : Env → Stream → Outcome StreamError ℤ → Lifetimes Entry → Lifetimes Entry
  draw env s (ok available) l = if eqb_ℤ available (pos 0) then l else set_stream env s.id l
  draw env s (err e) l = l
  draw env s trap l = l

  abbrev pub drawn_down : Env → Option Stream → Lifetimes Entry → Lifetimes Entry
  drawn_down env none l = l
  drawn_down env (some s) l = draw env s (withdrawable_amount s env.sequence) l

  abbrev pub create_stream : Env → Address → Address → ℕ → Lifetimes Entry → Lifetimes Entry
  create_stream env sender recipient id l =
      add_recipient_stream env recipient
        (add_sender_stream env sender (set_stream env id (next_stream_id env l)))

module _ {W : Type 0} (host : Invoker W) (keeper : Keeper) where
  -- The writes of a call that goes through, in their order.
  abbrev pub writes : Env → Call → World W → Lifetimes Entry → Lifetimes Entry
  writes env (Call.initialize admin vault) w l = initialize keeper env l
  writes env Call.pause w l = set_paused keeper env l
  writes env Call.unpause w l = set_paused keeper env l
  writes env (Call.transfer_admin new_admin) w l = set_admin keeper env l
  writes env (Call.create_stream sender recipient token total first last cliff cancellable) w l =
      create_stream keeper env sender recipient (current_id w + 1) l
  writes env (Call.withdraw recipient id amount) w l = set_found keeper env (lookup id w.streams) l
  writes env (Call.withdraw_max recipient id) w l = drawn_down keeper env (lookup id w.streams) l
  writes env (Call.cancel_stream sender id) w l = set_found keeper env (lookup id w.streams) l

  -- The lifetimes after a call; one that fails is rolled back.
  unfoldable pub lifetimes : Env → Call → World W → Lifetimes Entry → Lifetimes Entry
  lifetimes env c w l = settled (invoke host env c w) (writes env c w l) l

-- ===== src/Stream/Storage.antt =====
-- The storage of the stream contract, contracts/stream/src/storage.rs: one field for each kind of
-- `DataKey`.
use stellar_stream_hive_cont.Base.{
  ℕ, ◌+◌, ◌-◌, ◌^◌, Bool, false, Option, none, some, List, [], ◌∷◌, ◌++◌, ltb,
}
use stellar_stream_hive_cont.Base.Dict.{Dict, lookup, insert, unwrap_or, is_some}
use stellar_stream_hive_cont.Host.{Address, Action, ◌>>=◌, ◌>>◌, pure, gets, modify, trap_unless}
use stellar_stream_hive_cont.Stream.Types.{Stream, StreamError, StreamEvent}

-- With the storage stand the events published so far, newest first, and the rest of the ledger.
pub record World (W : Type 0) : Type 0 where
  pub admin : Option Address
  pub vault : Option Address
  pub last_stream_id : Option ℕ
  pub paused : Option Bool
  pub streams : Dict Stream
  pub sender_streams : Dict (List ℕ)
  pub recipient_streams : Dict (List ℕ)
  pub events : List StreamEvent
  pub outside : W

abbrev pub u64_max : ℕ
u64_max = 2 ^ 64 - 1

module _ {W : Type 0} where
  -- A contract that has just been deployed.
  abbrev pub deployed : W → World W
  deployed o = record {
    admin = none;
    vault = none;
    last_stream_id = none;
    paused = none;
    streams = [];
    sender_streams = [];
    recipient_streams = [];
    events = [];
    outside = o;
  }

  abbrev pub has_admin : World W → Bool
  has_admin w = is_some w.admin

  abbrev pub set_admin : Address → World W → World W
  set_admin a w = record w { admin = some a }

  abbrev pub get_admin : World W → Option Address
  get_admin w = w.admin

  abbrev pub is_paused : World W → Bool
  is_paused w = unwrap_or w.paused false

  abbrev pub set_paused : Bool → World W → World W
  set_paused p w = record w { paused = some p }

  abbrev pub set_vault : Address → World W → World W
  set_vault a w = record w { vault = some a }

  abbrev pub get_vault : World W → Option Address
  get_vault w = w.vault

  -- The value under `NextStreamId`, which is the last id handed out.
  abbrev pub current_id : World W → ℕ
  current_id w = unwrap_or w.last_stream_id 0

  -- The addition panics where it overflows, since the build has overflow checks.
  abbrev pub next_stream_id : Action (World W) StreamError ℕ
  next_stream_id = do
    current ← gets current_id
    trap_unless (ltb current u64_max)
    modify (λ w. record w { last_stream_id = some (current + 1) })
    pure (current + 1)

  abbrev pub get_stream : ℕ → World W → Option Stream
  get_stream stream_id w = lookup stream_id w.streams

  abbrev pub set_stream : Stream → World W → World W
  set_stream stream w = record w { streams = insert stream.id stream w.streams }

  abbrev pub get_sender_streams : Address → World W → List ℕ
  get_sender_streams sender w = unwrap_or (lookup sender w.sender_streams) []

  abbrev pub add_sender_stream : Address → ℕ → World W → World W
  add_sender_stream sender stream_id w = record w {
    sender_streams =
        insert sender (get_sender_streams sender w ++ (stream_id ∷ [])) w.sender_streams;
  }

  abbrev pub get_recipient_streams : Address → World W → List ℕ
  get_recipient_streams recipient w = unwrap_or (lookup recipient w.recipient_streams) []

  abbrev pub add_recipient_stream : Address → ℕ → World W → World W
  add_recipient_stream recipient stream_id w = record w {
    recipient_streams =
        insert recipient (get_recipient_streams recipient w ++ (stream_id ∷ []))
          w.recipient_streams;
  }

  -- `event.publish(&env)`
  abbrev pub publish : StreamEvent → World W → World W
  publish e w = record w { events = e ∷ w.events }

-- ===== src/Stream/Queries.antt =====
-- The queries of the stream contract, contracts/stream/src/lib.rs.
use stellar_stream_hive_cont.Base.{ℕ, ◌-◌, min, Bool, Option, none, some, List, [], ◌∷◌}
use stellar_stream_hive_cont.Base.Int.{ℤ}
use stellar_stream_hive_cont.Base.Lists.{length, get_elem?}
use stellar_stream_hive_cont.Base.Pages.{gather, push, saturating_add}
use stellar_stream_hive_cont.Host.{Env, Address, Outcome, ok}
use stellar_stream_hive_cont.Host.Results.{◌>>=◌, ok_or}
use stellar_stream_hive_cont.Stream.Types.{
  Stream, StreamStatus, StreamError, stream_not_found, not_initialized,
}
use stellar_stream_hive_cont.Stream.Math
use stellar_stream_hive_cont.Stream.Math.{compute_status}
use stellar_stream_hive_cont.Stream.Storage
use stellar_stream_hive_cont.Stream.Storage.{World}

abbrev pub max_page_size : ℕ
max_page_size = 50

-- `stream.status = math::compute_status(&stream, now);`
abbrev pub refresh : Env → Stream → Stream
refresh env stream = record stream { status = compute_status stream env.sequence }

abbrev pub refreshed : Env → Option Stream → Option Stream
refreshed env none = none
refreshed env (some stream) = some (refresh env stream)

abbrev pub slice : List ℕ → ℕ → ℕ → List ℕ
slice ids offset limit =
    let end = min (saturating_add offset (min limit max_page_size)) (length ids) in
    gather (get_elem? ids) (end - offset) offset

module _ {W : Type 0} where
  abbrev pub stored_stream : ℕ → World W → Outcome StreamError Stream
  stored_stream stream_id w = ok_or (Storage.get_stream stream_id w) stream_not_found

  abbrev pub streamed_amount : Env → ℕ → World W → Outcome StreamError ℤ
  streamed_amount env stream_id w =
      stored_stream stream_id w >>= λ stream. Math.streamed_amount stream env.sequence

  abbrev pub withdrawable_amount : Env → ℕ → World W → Outcome StreamError ℤ
  withdrawable_amount env stream_id w =
      stored_stream stream_id w >>= λ stream. Math.withdrawable_amount stream env.sequence

  abbrev pub get_stream : Env → ℕ → World W → Outcome StreamError Stream
  get_stream env stream_id w = stored_stream stream_id w >>= λ stream. ok (refresh env stream)

  abbrev pub get_status : Env → ℕ → World W → Outcome StreamError StreamStatus
  get_status env stream_id w =
      stored_stream stream_id w >>= λ stream. ok (compute_status stream env.sequence)

  abbrev pub hydrate : Env → World W → List ℕ → List Stream
  hydrate env w [] = []
  hydrate env w (id ∷ ids) = push (refreshed env (Storage.get_stream id w)) (hydrate env w ids)

  abbrev pub get_streams_by_sender : Env → Address → World W → List Stream
  get_streams_by_sender env sender w = hydrate env w (Storage.get_sender_streams sender w)

  abbrev pub get_streams_by_recipient : Env → Address → World W → List Stream
  get_streams_by_recipient env recipient w =
      hydrate env w (Storage.get_recipient_streams recipient w)

  abbrev pub count_streams_by_sender : Address → World W → ℕ
  count_streams_by_sender sender w = length (Storage.get_sender_streams sender w)

  abbrev pub count_streams_by_recipient : Address → World W → ℕ
  count_streams_by_recipient recipient w = length (Storage.get_recipient_streams recipient w)

  abbrev pub get_streams_by_sender_page : Env → Address → ℕ → ℕ → World W → List Stream
  get_streams_by_sender_page env sender offset limit w =
      hydrate env w (slice (Storage.get_sender_streams sender w) offset limit)

  abbrev pub get_streams_by_recipient_page : Env → Address → ℕ → ℕ → World W → List Stream
  get_streams_by_recipient_page env recipient offset limit w =
      hydrate env w (slice (Storage.get_recipient_streams recipient w) offset limit)

  abbrev pub is_paused : World W → Bool
  is_paused w = Storage.is_paused w

  abbrev pub get_admin : World W → Outcome StreamError Address
  get_admin w = ok_or (Storage.get_admin w) not_initialized

  abbrev pub get_vault : World W → Outcome StreamError Address
  get_vault w = ok_or (Storage.get_vault w) not_initialized

-- ===== src/Stream/Creatable.antt =====
-- When a creation goes through.
use stellar_stream_hive_cont.Base.{
  ℕ, ◌+◌, ◌≤◌, ◌<◌, ◌≡◌, Bool, true, false, some, [], ◌∷◌, ◌++◌, arith,
}
use stellar_stream_hive_cont.Base.Int.{ℤ, pos, ◌≤ℤ◌}
use stellar_stream_hive_cont.Base.Dict.{insert, unwrap_or}
use stellar_stream_hive_cont.Host.{Env, Address, ok}
use stellar_stream_hive_cont.Host.Invoke.{Invoker}
use stellar_stream_hive_cont.Stream.Types.{Stream, StreamEvent}
use stellar_stream_hive_cont.Stream.Storage.{
  World, current_id, u64_max, get_sender_streams, get_recipient_streams,
}
use stellar_stream_hive_cont.Stream.VaultClient
use stellar_stream_hive_cont.Stream.Contract.{create_stream}
use stellar_stream_hive_cont.Stream.Effects.{new_stream}

module _ {W : Type 0} (host : Invoker W) where
  -- The state after the creation of `s`, with the rest of the ledger in the state `o`.
  abbrev pub with_stream : Stream → World W → W → World W
  with_stream s w o = record w {
    last_stream_id = some s.id;
    streams = insert s.id s w.streams;
    sender_streams =
        insert s.sender (get_sender_streams s.sender w ++ (s.id ∷ [])) w.sender_streams;
    recipient_streams =
        insert s.recipient (get_recipient_streams s.recipient w ++ (s.id ∷ [])) w.recipient_streams;
    events =
        StreamEvent.create s.id s.sender s.recipient s.token s.total_amount s.start_ledger
          s.end_ledger s.cliff_ledger s.cancellable
        ∷ w.events;
    outside = o;
  }

  pub create_succeeds :
      (env : Env) (sender recipient token : Address) (total : ℤ) (first last cliff : ℕ)
      (cancellable : Bool) (vault : Address) (o : W) (w : World W)
      → env.authorizes sender ≡ true
      → unwrap_or w.paused false ≡ false
      → pos 1 ≤ℤ total
      → first < last
      → first ≤ cliff
      → cliff ≤ last
      → w.vault ≡ some vault
      → current_id w < u64_max
      → VaultClient.deposit host env vault sender token total (current_id w + 1) w.outside ≡ some o
      → create_stream host env sender recipient token total first last cliff cancellable w
        ≡ ok (
          current_id w + 1,
          with_stream
              (new_stream env
                (current_id w + 1)
                sender
                recipient
                token
                total
                first
                last
                cliff
                cancellable)
              w
              o,
        )
  unfolding create_stream
  create_succeeds env sender recipient token total first last cliff cancellable vault o w a p q l c
        d v n paid =
      ground arith

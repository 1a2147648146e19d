-- ===== src/Stream/Log.antt =====
-- The events of the stream contract tell what its streams are (docs/events.md).
use stellar_stream_hive_cont.Base.{
  ℕ, ◌≡◌, refl, Bool, true, false, Option, none, some, List, [], ◌∷◌, ◌==◌, inl, inr, arith,
  Bool-cases, Option-cases, ==→eq, if◌then◌else◌,
}
use stellar_stream_hive_cont.Base.Int.{ℤ, pos, ◌+ℤ◌}
use stellar_stream_hive_cont.Base.Dict.{lookup, insert, lookup-insert}
use stellar_stream_hive_cont.Host.{Env, Address, ok, commit_elim}
use stellar_stream_hive_cont.Host.Invoke.{Invoker}
use stellar_stream_hive_cont.Stream.Types.{Stream, StreamEvent}
use stellar_stream_hive_cont.Stream.Math.{is_cancelled}
use stellar_stream_hive_cont.Stream.Storage.{World}
use stellar_stream_hive_cont.Stream.Contract.{
  initialize, pause, unpause, transfer_admin, create_stream, withdraw, withdraw_max, cancel_stream,
}
use stellar_stream_hive_cont.Stream.Effects.{create_stream_ok, withdraw_ok}
use stellar_stream_hive_cont.Stream.CancelEffect.{cancel_stream_ok}
use stellar_stream_hive_cont.Stream.Reach.{withdraw_max_ok, discard_ok}
use stellar_stream_hive_cont.Stream.Steps.{Call, invoke, Ran}
use stellar_stream_hive_cont.Stream.Listing.{IsListed, Ran-IsListed}

-- What an observer of the events knows of a stream: all but the ledgers at which the calls ran.
pub record Seen : Type 0 where
  pub sender : Address
  pub recipient : Address
  pub token : Address
  pub total_amount : ℤ
  pub start_ledger : ℕ
  pub end_ledger : ℕ
  pub cliff_ledger : ℕ
  pub cancellable : Bool
  pub withdrawn : ℤ
  pub is_stopped : Bool

abbrev pub seen : Stream → Seen
seen s = record {
  sender = s.sender;
  recipient = s.recipient;
  token = s.token;
  total_amount = s.total_amount;
  start_ledger = s.start_ledger;
  end_ledger = s.end_ledger;
  cliff_ledger = s.cliff_ledger;
  cancellable = s.cancellable;
  withdrawn = s.withdrawn;
  is_stopped = is_cancelled s;
}

abbrev pub seen_at : Option Stream → Option Seen
seen_at none = none
seen_at (some s) = some (seen s)

-- The effect of one event on the stream that it names.
abbrev pays : ℤ → Option Seen → Option Seen
pays amount none = none
pays amount (some x) = some (record x { withdrawn = x.withdrawn +ℤ amount })

abbrev stops : Option Seen → Option Seen
stops none = none
stops (some x) = some (record x { is_stopped = true })

-- The stream under the id `k`, rebuilt from the events, of which the newest comes first.
unfoldable pub rebuilt : ℕ → List StreamEvent → Option Seen
rebuilt k [] = none
rebuilt k (StreamEvent.create id sender recipient token total first last cliff cancellable ∷ es) =
    let before = rebuilt k es in
    if k == id
    then some (record {
      sender = sender;
      recipient = recipient;
      token = token;
      total_amount = total;
      start_ledger = first;
      end_ledger = last;
      cliff_ledger = cliff;
      cancellable = cancellable;
      withdrawn = pos 0;
      is_stopped = false;
    })
    else before
rebuilt k (StreamEvent.withdraw id recipient amount ∷ es) =
    let before = rebuilt k es in if k == id then pays amount before else before
rebuilt k (StreamEvent.cancel id sender streamed remainder ∷ es) =
    let before = rebuilt k es in if k == id then stops before else before
rebuilt k (_ ∷ es) = rebuilt k es

module _ {W : Type 0} where
  abbrev IsLogged : World W → Type 0
  IsLogged w = (k : ℕ) → rebuilt k w.events ≡ seen_at (lookup k w.streams)

  kept-IsLogged :
      (w w' : World W) → w'.streams ≡ w.streams → w'.events ≡ w.events → IsLogged w → IsLogged w'
  kept-IsLogged w w' e f v k = rw (e, f) (v k)

  -- What is seen after one stream has been written.
  seen-written :
      (k id key : ℕ) (x : Stream) (w w' : World W)
      → key ≡ id
      → w'.streams ≡ insert key x w.streams
      → seen_at (lookup k w'.streams)
        ≡ (if k == id then some (seen x) else seen_at (lookup k w.streams))
  seen-written k id key x w w' e stored = elim (Bool-cases (k == id)) [
    | inl same ↦ rw (stored, e, lookup-insert k id x w.streams, same) refl
    | inr other ↦ rw (stored, e, lookup-insert k id x w.streams, other) refl
  ]

module _ {W : Type 0} (host : Invoker W) where
  withdraw-IsLogged :
      (env : Env) (recipient : Address) (id : ℕ) (amount : ℤ) (w w' : World W)
      → IsListed w
      → withdraw host env recipient id amount w ≡ ok (tt, w')
      → IsLogged w
      → IsLogged w'
  unfolding rebuilt
  withdraw-IsLogged env recipient id amount w w' i run v k =
      let (s, d) = withdraw_ok host env recipient id amount w w' run in
      rw (d.logged, seen-written k id s.id _ w w' (i.keyed id s d.found) d.stored)
        (elim (Bool-cases (k == id)) [
          | inl same ↦ rw (same, v k, ==→eq k id same, d.found) refl
          | inr other ↦ rw other (v k)
        ])

  cancel_stream-IsLogged :
      (env : Env) (sender : Address) (id : ℕ) (w w' : World W)
      → IsListed w
      → cancel_stream host env sender id w ≡ ok (tt, w')
      → IsLogged w
      → IsLogged w'
  unfolding rebuilt
  cancel_stream-IsLogged env sender id w w' i run v k =
      let (s, streamed, d) = cancel_stream_ok host env sender id w w' run in
      rw (d.logged, seen-written k id s.id _ w w' (i.keyed id s d.found) d.stored)
        (elim (Bool-cases (k == id)) [
          | inl same ↦ rw (same, v k, ==→eq k id same, d.found) refl
          | inr other ↦ rw other (v k)
        ])

  invoke-IsLogged :
      (env : Env) (c : Call) (w w' : World W)
      → IsListed w
      → invoke host env c w ≡ ok (tt, w')
      → IsLogged w
      → IsLogged w'
  unfolding invoke initialize pause unpause transfer_admin rebuilt
  invoke-IsLogged env (Call.initialize admin vault) w w' i run v =
      kept-IsLogged w w' (ground arith) (ground arith) v
  invoke-IsLogged env Call.pause w w' i run v = elim (Option-cases w.admin) [
    | inl e ↦ absurd (ground arith)
    | inr (b, e) ↦
        let q : w'.events ≡ StreamEvent.pause b ∷ w.events = ground arith in
        let t : w'.streams ≡ w.streams = ground arith in λ k. rw (q, t) (v k)
  ]
  invoke-IsLogged env Call.unpause w w' i run v = elim (Option-cases w.admin) [
    | inl e ↦ absurd (ground arith)
    | inr (b, e) ↦
        let q : w'.events ≡ StreamEvent.unpause b ∷ w.events = ground arith in
        let t : w'.streams ≡ w.streams = ground arith in λ k. rw (q, t) (v k)
  ]
  invoke-IsLogged env (Call.transfer_admin a) w w' i run v = elim (Option-cases w.admin) [
    | inl e ↦ absurd (ground arith)
    | inr (b, e) ↦
        let q : w'.events ≡ StreamEvent.admin_transfer b a ∷ w.events = ground arith in
        let t : w'.streams ≡ w.streams = ground arith in λ k. rw (q, t) (v k)
  ]
  invoke-IsLogged env (Call.create_stream sender recipient token total first last cliff cancellable)
        w w' i run v =
      let (id, run') =
        discard_ok
          (create_stream host env sender recipient token total first last cliff cancellable) w w'
          run in
      let d =
        create_stream_ok host env sender recipient token total first last cliff cancellable id w w'
          run' in
      λ k.
        rw (d.logged, seen-written k id id _ w w' refl d.stored)
          (elim (Bool-cases (k == id)) [ inl same ↦ rw same refl | inr other ↦ rw other (v k) ])
  invoke-IsLogged env (Call.withdraw recipient id amount) w w' i run v =
      withdraw-IsLogged env recipient id amount w w' i run v
  invoke-IsLogged env (Call.withdraw_max recipient id) w w' i run v =
      let (amount, run') = discard_ok (withdraw_max host env recipient id) w w' run in
      elim (withdraw_max_ok host env recipient id amount w w' run') [
        | inl (none_left, same) ↦ rw same v
        | inr taken ↦ withdraw-IsLogged env recipient id amount w w' i taken v
      ]
  invoke-IsLogged env (Call.cancel_stream sender id) w w' i run v =
      cancel_stream-IsLogged env sender id w w' i run v

  -- In every state that the contract can reach from its deployment, whatever is called: the events
  -- that it has published, read from the first to the last, rebuild exactly the stored streams, with
  -- their terms, what was withdrawn from them and whether they were cancelled. Only the ledgers at
  -- which a stream was created and cancelled are not part of the events.
  pub rebuilt-streams :
      (o : W) (w : World W)
      → Ran host o w
      → (id : ℕ) → rebuilt id w.events ≡ seen_at (lookup id w.streams)
  unfolding rebuilt
  rebuilt-streams o _ Ran.start id = refl
  rebuilt-streams o _ (Ran.call {w} r env c) id =
      commit_elim IsLogged w (invoke host env c w) (rebuilt-streams o w r)
        (λ w' run. invoke-IsLogged env c w w' (Ran-IsListed host o w r) run (rebuilt-streams o w r))
        id
  rebuilt-streams o _ (Ran.elsewhere {w} r o') id = rebuilt-streams o w r id

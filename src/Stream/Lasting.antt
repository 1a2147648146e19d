-- ===== src/Stream/Lasting.antt =====
-- How long the entries live that a call of the stream contract changes.
use stellar_stream_hive_cont.Base.{ℕ, ◌+◌, ◌≡◌, ◌⊎◌, inl, inr, Bool, false, arith}
use stellar_stream_hive_cont.Base.Int.{ℤ, pos, eqb_ℤ}
use stellar_stream_hive_cont.Base.Dict.{lookup}
use stellar_stream_hive_cont.Host.{Env, Address, ok, commit}
use stellar_stream_hive_cont.Host.Invoke.{Invoker}
use stellar_stream_hive_cont.Host.Lifetime.{
  Keeper, IsKeeper, Lifetimes, LivesOn, inserted, settled_elim,
}
use stellar_stream_hive_cont.Stream.Storage.{World, current_id}
use stellar_stream_hive_cont.Stream.Contract.{
  initialize, pause, unpause, transfer_admin, create_stream, withdraw, withdraw_max, cancel_stream,
}
use stellar_stream_hive_cont.Stream.Effects.{create_stream_ok, withdraw_ok}
use stellar_stream_hive_cont.Stream.CancelEffect.{cancel_stream_ok}
use stellar_stream_hive_cont.Stream.Drain.{withdraw_max-available}
use stellar_stream_hive_cont.Stream.Reach.{withdraw_max_ok, discard_ok}
use stellar_stream_hive_cont.Stream.Steps.{Call, invoke}
use stellar_stream_hive_cont.Stream.Lifetimes as Writes
use stellar_stream_hive_cont.Stream.Lifetimes.{
  Entry, same_entry, ledger_threshold, kept, set_found, drawn_down, writes, lifetimes,
}
use stellar_stream_hive_cont.Stream.Unchanged.{
  Unchanged, Unchanged-refl, Lasts, kept-LivesOn, kept_stays, settings-Lasts, stream-Lasts,
}

module _ {W : Type 0} (host : Invoker W) (keeper : Keeper) (law : IsKeeper keeper) where
  withdraw-Lasts :
      (env : Env) (recipient : Address) (id : ℕ) (amount : ℤ) (w w' : World W) (l : Lifetimes Entry)
      (e : Entry)
      → withdraw host env recipient id amount w ≡ ok (tt, w')
      → Lasts env.sequence w w' (set_found keeper env (lookup id w.streams) l) e
  withdraw-Lasts env recipient id amount w w' l e run =
      let (s, d) = withdraw_ok host env recipient id amount w w' run in
      let (a, v, p, n, f, t) = d.others_kept in
      rw d.found (
        stream-Lasts env.sequence s.id _ w w' (kept keeper env (Entry.stream_entry s.id) l) e
          (a, v, p) d.stored f t (kept-LivesOn keeper law env (Entry.stream_entry s.id) l))

  withdraw_max-Lasts :
      (env : Env) (recipient : Address) (id : ℕ) (amount : ℤ) (w w' : World W) (l : Lifetimes Entry)
      (e : Entry)
      → withdraw_max host env recipient id w ≡ ok (amount, w')
      → Lasts env.sequence w w' (drawn_down keeper env (lookup id w.streams) l) e
  withdraw_max-Lasts env recipient id amount w w' l e run =
      elim (withdraw_max_ok host env recipient id amount w w' run) [
        | inl (nothing, same) ↦ inl (rw same (Unchanged-refl e w))
        | inr taken ↦
            let (s, d) = withdraw_ok host env recipient id amount w w' taken in
            let available =
              withdraw_max-available host env recipient id amount s w w' d.found run in
            let some_left : eqb_ℤ amount (pos 0) ≡ false = ground (arith, d.positive) in
            let lasts = rw d.found at (withdraw-Lasts env recipient id amount w w' l e taken) in
            rw (d.found, available, some_left) lasts
      ]

  cancel_stream-Lasts :
      (env : Env) (sender : Address) (id : ℕ) (w w' : World W) (l : Lifetimes Entry) (e : Entry)
      → cancel_stream host env sender id w ≡ ok (tt, w')
      → Lasts env.sequence w w' (set_found keeper env (lookup id w.streams) l) e
  cancel_stream-Lasts env sender id w w' l e run =
      let (s, streamed, d) = cancel_stream_ok host env sender id w w' run in
      let (a, v, p, n, f, t) = d.others_kept in
      rw d.found (
        stream-Lasts env.sequence s.id _ w w' (kept keeper env (Entry.stream_entry s.id) l) e
          (a, v, p) d.stored f t (kept-LivesOn keeper law env (Entry.stream_entry s.id) l))

  create_stream-Lasts :
      (env : Env) (sender recipient token : Address) (total : ℤ) (first last cliff : ℕ)
      (cancellable : Bool) (id : ℕ) (w w' : World W) (l : Lifetimes Entry) (e : Entry)
      → create_stream host env sender recipient token total first last cliff cancellable w
        ≡ ok (id, w')
      → Lasts env.sequence w w'
          (Writes.create_stream keeper env sender recipient (current_id w + 1) l)
          e
  create_stream-Lasts env sender recipient token total first last cliff cancellable id w w' l
        Entry.instance_entry run =
      let d =
        create_stream_ok host env sender recipient token total first last cliff cancellable id w w'
          run in
      inl (d.admin_kept, d.vault_kept, d.paused_kept)
  create_stream-Lasts env sender recipient token total first last cliff cancellable id w w' l
        (Entry.stream_entry k) run =
      let d =
        create_stream_ok host env sender recipient token total first last cliff cancellable id w w'
          run in
      let m = Writes.create_stream keeper env sender recipient (current_id w + 1) l in
      let l' = Writes.next_stream_id keeper env l in
      inserted env.sequence ledger_threshold id k _ w.streams w'.streams Entry.stream_entry m
        d.stored
        (rw d.fresh_id (
          kept_stays keeper law env (Entry.recipient_entry recipient)
            (Entry.stream_entry (current_id w + 1))
            (Writes.add_sender_stream keeper env sender
              (Writes.set_stream keeper env (current_id w + 1) l'))
            (kept_stays keeper law env (Entry.sender_entry sender)
              (Entry.stream_entry (current_id w + 1))
              (Writes.set_stream keeper env (current_id w + 1) l')
              (kept-LivesOn keeper law env (Entry.stream_entry (current_id w + 1)) l'))))
  create_stream-Lasts env sender recipient token total first last cliff cancellable id w w' l
        (Entry.sender_entry k) run =
      let d =
        create_stream_ok host env sender recipient token total first last cliff cancellable id w w'
          run in
      let m = Writes.create_stream keeper env sender recipient (current_id w + 1) l in
      let l' =
        Writes.set_stream keeper env (current_id w + 1) (Writes.next_stream_id keeper env l) in
      inserted env.sequence ledger_threshold sender k _ w.sender_streams w'.sender_streams
        Entry.sender_entry m d.sent
        (kept_stays keeper law env (Entry.recipient_entry recipient) (Entry.sender_entry sender)
          (Writes.add_sender_stream keeper env sender l')
          (kept-LivesOn keeper law env (Entry.sender_entry sender) l'))
  create_stream-Lasts env sender recipient token total first last cliff cancellable id w w' l
        (Entry.recipient_entry k) run =
      let d =
        create_stream_ok host env sender recipient token total first last cliff cancellable id w w'
          run in
      let m = Writes.create_stream keeper env sender recipient (current_id w + 1) l in
      let l' =
        Writes.add_sender_stream keeper env sender
          (Writes.set_stream keeper env (current_id w + 1) (Writes.next_stream_id keeper env l)) in
      inserted env.sequence ledger_threshold recipient k _ w.recipient_streams w'.recipient_streams
        Entry.recipient_entry m d.received
        (kept-LivesOn keeper law env (Entry.recipient_entry recipient) l')

  success-Lasts :
      (env : Env) (c : Call) (w w' : World W) (l : Lifetimes Entry) (e : Entry)
      → invoke host env c w ≡ ok (tt, w')
      → Lasts env.sequence w w' (writes host keeper env c w l) e
  unfolding invoke initialize pause unpause transfer_admin
  success-Lasts env (Call.initialize admin vault) w w' l e run =
      settings-Lasts env.sequence w w' (writes host keeper env (Call.initialize admin vault) w l) e
        (ground arith) (ground arith) (ground arith)
        (kept-LivesOn keeper law env Entry.instance_entry (Writes.set_admin keeper env l))
  success-Lasts env Call.pause w w' l e run =
      settings-Lasts env.sequence w w' (Writes.set_paused keeper env l) e (ground arith)
        (ground arith) (ground arith) (kept-LivesOn keeper law env Entry.instance_entry l)
  success-Lasts env Call.unpause w w' l e run =
      settings-Lasts env.sequence w w' (Writes.set_paused keeper env l) e (ground arith)
        (ground arith) (ground arith) (kept-LivesOn keeper law env Entry.instance_entry l)
  success-Lasts env (Call.transfer_admin a) w w' l e run =
      settings-Lasts env.sequence w w' (Writes.set_admin keeper env l) e (ground arith)
        (ground arith) (ground arith) (kept-LivesOn keeper law env Entry.instance_entry l)
  success-Lasts env (Call.create_stream sender recipient token total first last cliff cancellable) w
        w' l e run =
      let (id, run') =
        discard_ok
          (create_stream host env sender recipient token total first last cliff cancellable) w w'
          run in
      create_stream-Lasts env sender recipient token total first last cliff cancellable id w w' l e
        run'
  success-Lasts env (Call.withdraw recipient id amount) w w' l e run =
      withdraw-Lasts env recipient id amount w w' l e run
  success-Lasts env (Call.withdraw_max recipient id) w w' l e run =
      let (amount, run') = discard_ok (withdraw_max host env recipient id) w w' run in
      withdraw_max-Lasts env recipient id amount w w' l e run'
  success-Lasts env (Call.cancel_stream sender id) w w' l e run =
      cancel_stream-Lasts env sender id w w' l e run

  -- Over a host that keeps entries alive as it is asked to: after any call of the stream contract
  -- each ledger entry is the same as before, or it lives for 120,960 ledgers at least. Only the
  -- counter of ids in the instance entry is left out: `next_stream_id` extends nothing.
  pub changed_streams-Lasts :
      (env : Env) (c : Call) (e : Entry) (w : World W) (l : Lifetimes Entry)
      → let w' = commit w (invoke host env c w) in
        Unchanged e w w' ⊎ LivesOn env.sequence ledger_threshold e (lifetimes host keeper env c w l)
  unfolding lifetimes
  changed_streams-Lasts env c e w l =
      settled_elim (λ w' l'. Lasts env.sequence w w' l' e) w l (writes host keeper env c w l)
        (invoke host env c w) (inl (Unchanged-refl e w))
        (λ w' run. success-Lasts env c w w' l e run)

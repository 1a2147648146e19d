-- ===== src/Stream/Listing.antt =====
-- The streams that the queries list are those of the sender or of the recipient.
use stellar_stream_hive_cont.Base.{
  ℕ, ◌+◌, ◌≤◌, ◌≡◌, refl, ap, ◌∙◌, none, some, List, [], ◌∷◌, ◌++◌, map, arith, ◌==◌, if◌then◌else◌,
  inl, inr, Bool-cases, Option-cases, ==→eq,
}
use stellar_stream_hive_cont.Base.Int.{ℤ, ◌+ℤ◌}
use stellar_stream_hive_cont.Base.Dict.{
  Dict, lookup, insert, lookup-insert, unwrap_or, AllDistinct, insert-AllDistinct,
}
use stellar_stream_hive_cont.Host.{Env, Address, ok, commit_elim}
use stellar_stream_hive_cont.Host.Invoke.{Invoker}
use stellar_stream_hive_cont.Stream.Types.{Stream}
use stellar_stream_hive_cont.Stream.Storage.{
  World, current_id, get_sender_streams, get_recipient_streams,
}
use stellar_stream_hive_cont.Stream.Contract.{
  initialize, pause, unpause, transfer_admin, create_stream, withdraw, withdraw_max,
}
use stellar_stream_hive_cont.Stream.Effects.{Created, create_stream_ok, withdraw_ok}
use stellar_stream_hive_cont.Stream.CancelEffect.{stopped, cancel_stream_ok}
use stellar_stream_hive_cont.Stream.Reach.{withdraw_max_ok, discard_ok}
use stellar_stream_hive_cont.Stream.Steps.{Call, invoke, Ran}
use stellar_stream_hive_cont.Stream.Index.{
  ids_where, streams_where, is_sent_by, is_received_by, ids_where-new, ids_where-replaced,
  hydrate-where,
}
use stellar_stream_hive_cont.Stream.Queries.{
  refresh, get_streams_by_sender, get_streams_by_recipient,
}

-- The lists of ids after one id has been appended to one list.
index-new :
    (c o k : ℕ) (m : Dict (List ℕ)) (q : ℕ → List ℕ)
    → ((a : ℕ) → unwrap_or (lookup a m) [] ≡ q a)
    → unwrap_or (lookup c (insert o (unwrap_or (lookup o m) [] ++ (k ∷ [])) m)) []
      ≡ (if c == o then q c ++ (k ∷ []) else q c)
index-new c o k m q h = elim (Bool-cases (c == o)) [
  | inl same ↦
      rw (lookup-insert c o (unwrap_or (lookup o m) [] ++ (k ∷ [])) m, same, ==→eq c o same)
        (ap (λ l. l ++ (k ∷ [])) (h o))
  | inr other ↦ rw (lookup-insert c o (unwrap_or (lookup o m) [] ++ (k ∷ [])) m, other) (h c)
]

module _ {W : Type 0} where
  pub record IsListed (w : World W) : Type 0 where
    pub distinct : AllDistinct w.streams
    pub keyed : (id : ℕ) (s : Stream) → lookup id w.streams ≡ some s → s.id ≡ id
    pub issued : (id : ℕ) (s : Stream) → lookup id w.streams ≡ some s → id ≤ current_id w
    pub sent : (a : Address) → get_sender_streams a w ≡ ids_where (is_sent_by a) w.streams
    pub received :
        (a : Address) → get_recipient_streams a w ≡ ids_where (is_received_by a) w.streams

  -- A call that changes none of this.
  pub same-IsListed :
      (w w' : World W)
      → w'.streams ≡ w.streams
      → w'.last_stream_id ≡ w.last_stream_id
      → w'.sender_streams ≡ w.sender_streams
      → w'.recipient_streams ≡ w.recipient_streams
      → IsListed w
      → IsListed w'
  same-IsListed w w' e l s r v = record {
    distinct = rw e v.distinct;
    keyed = rw e v.keyed;
    issued = rw (e, l) v.issued;
    sent = rw (e, s) v.sent;
    received = rw (e, r) v.received;
  }

  -- A stored stream is replaced by a version with the same parties.
  replaced-IsListed :
      (id : ℕ) (s x : Stream) (w w' : World W)
      → lookup id w.streams ≡ some s
      → x.id ≡ s.id
      → x.sender ≡ s.sender
      → x.recipient ≡ s.recipient
      → w'.streams ≡ insert s.id x w.streams
      → w'.last_stream_id ≡ w.last_stream_id
      → w'.sender_streams ≡ w.sender_streams
      → w'.recipient_streams ≡ w.recipient_streams
      → IsListed w
      → IsListed w'
  replaced-IsListed id s x w w' found i a b e l p r v =
      let key = v.keyed id s found in
      let stored : w'.streams ≡ insert id x w.streams = e ∙ ap (λ k. insert k x w.streams) key in
      record {
        distinct = rw stored (insert-AllDistinct id x w.streams v.distinct);
        keyed = λ j y f.
            let g = rw (stored, lookup-insert j id x w.streams) at f in ground (arith, v.keyed j y);
        issued = λ j y f.
            let g = rw (stored, lookup-insert j id x w.streams) at f in
            rw l (ground (arith, v.issued j y, v.issued id s));
        sent = λ c.
            rw
              (
                stored,
                p,
                ids_where-replaced (is_sent_by c) id x s w.streams found (ap (λ z. c == z) a),
              )
              (v.sent c);
        received = λ c.
            rw
              (
                stored,
                r,
                ids_where-replaced (is_received_by c) id x s w.streams found (ap (λ z. c == z) b),
              )
              (v.received c);
      }

  -- An id that has not been handed out has no stream.
  pub unissued : (w : World W) → IsListed w → lookup (current_id w + 1) w.streams ≡ none
  unissued w v = elim (Option-cases (lookup (current_id w + 1) w.streams)) [
    | inl e ↦ e
    | inr (s, e) ↦ absurd (omega (arith, v.issued (current_id w + 1) s e))
  ]

  create_stream-IsListed :
      (host : Invoker W) (env : Env) (s : Stream) (w w' : World W)
      → Created host env s w w'
      → IsListed w
      → IsListed w'
  create_stream-IsListed host env s w w' d v =
      let new : lookup s.id w.streams ≡ none = rw d.fresh_id (unissued w v) in
      record {
        distinct = rw d.stored (insert-AllDistinct s.id s w.streams v.distinct);
        keyed = λ j y f.
            let g = rw (d.stored, lookup-insert j s.id s w.streams) at f in
            ground (arith, v.keyed j y);
        issued = λ j y f.
            let g = rw (d.stored, lookup-insert j s.id s w.streams) at f in
            rw d.id_set (ground (arith, v.issued j y, d.fresh_id));
        sent = λ c.
            rw (d.stored, d.sent, ids_where-new (is_sent_by c) s.id s w.streams new)
              (index-new c s.sender s.id w.sender_streams (λ a. ids_where (is_sent_by a) w.streams)
                v.sent);
        received = λ c.
            rw (d.stored, d.received, ids_where-new (is_received_by c) s.id s w.streams new)
              (index-new c s.recipient s.id w.recipient_streams
                (λ a. ids_where (is_received_by a) w.streams) v.received);
      }

module _ {W : Type 0} (host : Invoker W) where
  withdraw-IsListed :
      (env : Env) (recipient : Address) (id : ℕ) (amount : ℤ) (w w' : World W)
      → withdraw host env recipient id amount w ≡ ok (tt, w')
      → IsListed w
      → IsListed w'
  withdraw-IsListed env recipient id amount w w' h v =
      let (s, d) = withdraw_ok host env recipient id amount w w' h in
      let (_, _, _, l, p, r) = d.others_kept in
      replaced-IsListed id s (record s { withdrawn = s.withdrawn +ℤ amount }) w w' d.found refl refl
        refl d.stored l p r v

  pub invoke-IsListed :
      (env : Env) (c : Call) (w w' : World W)
      → invoke host env c w ≡ ok (tt, w')
      → IsListed w
      → IsListed w'
  unfolding invoke initialize pause unpause transfer_admin
  invoke-IsListed env (Call.initialize admin vault) w w' h v =
      same-IsListed w w' (ground arith) (ground arith) (ground arith) (ground arith) v
  invoke-IsListed env Call.pause w w' h v =
      same-IsListed w w' (ground arith) (ground arith) (ground arith) (ground arith) v
  invoke-IsListed env Call.unpause w w' h v =
      same-IsListed w w' (ground arith) (ground arith) (ground arith) (ground arith) v
  invoke-IsListed env (Call.transfer_admin new_admin) w w' h v =
      same-IsListed w w' (ground arith) (ground arith) (ground arith) (ground arith) v
  invoke-IsListed env (Call.create_stream sender recipient token total first last cliff cancellable)
        w w' h v =
      let (id, e) =
        discard_ok
          (create_stream host env sender recipient token total first last cliff cancellable) w w'
          h in
      create_stream-IsListed host env _ w w'
        (create_stream_ok host env sender recipient token total first last cliff cancellable id w w'
          e)
        v
  invoke-IsListed env (Call.withdraw recipient id amount) w w' h v =
      withdraw-IsListed env recipient id amount w w' h v
  invoke-IsListed env (Call.withdraw_max recipient id) w w' h v =
      let (amount, e) = discard_ok (withdraw_max host env recipient id) w w' h in
      elim (withdraw_max_ok host env recipient id amount w w' e) [
        | inl (none_left, same) ↦ rw same v
        | inr taken ↦ withdraw-IsListed env recipient id amount w w' taken v
      ]
  invoke-IsListed env (Call.cancel_stream sender id) w w' h v =
      let (s, streamed, d) = cancel_stream_ok host env sender id w w' h in
      let (_, _, _, l, p, r) = d.others_kept in
      replaced-IsListed id s (stopped s env.sequence) w w' d.found refl refl refl d.stored l p r v

  pub Ran-IsListed : (o : W) (w : World W) → Ran host o w → IsListed w
  Ran-IsListed o _ Ran.start = record {
    distinct = tt;
    keyed = λ id s e. absurd (ground arith);
    issued = λ id s e. absurd (ground arith);
    sent = λ a. refl;
    received = λ a. refl;
  }
  Ran-IsListed o _ (Ran.call {w} r env c) =
      commit_elim IsListed w (invoke host env c w) (Ran-IsListed o w r)
        (λ w' h. invoke-IsListed env c w w' h (Ran-IsListed o w r))
  Ran-IsListed o _ (Ran.elsewhere {w} r o') =
      same-IsListed w (record w { outside = o' }) refl refl refl refl (Ran-IsListed o w r)

  -- In every state that the contract can reach from its deployment, whatever calls are made and
  -- whatever happens outside: the lists by sender and by recipient hold exactly the stored streams
  -- with that sender or that recipient, in the order of their creation, each with its current status.
  pub get_streams_by-streams :
      (o : W) (env : Env) (a : Address) (w : World W)
      → Ran host o w
      → (get_streams_by_sender env a w ≡ map (refresh env) (streams_where (is_sent_by a) w.streams))
        × (get_streams_by_recipient env a w
            ≡ map (refresh env) (streams_where (is_received_by a) w.streams))
  get_streams_by-streams o env a w r =
      let v = Ran-IsListed o w r in
      (
        rw (v.sent a) (hydrate-where env w (is_sent_by a) w.streams v.distinct (λ k s l. l)),
        rw (v.received a)
            (hydrate-where env w (is_received_by a) w.streams v.distinct (λ k s l. l)),
      )

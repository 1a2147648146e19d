-- ===== src/Stream/Effects.antt =====
-- What the operations of the stream contract have done when they end with `ok`
-- (contracts/stream/src/lib.rs).
use stellar_stream_hive_cont.Base.{
  ℕ, ◌+◌, ◌≤◌, ◌<◌, ◌≡◌, inl, inr, Bool, true, false, some, [], ◌∷◌, ◌++◌, arith, Option-cases,
}
use stellar_stream_hive_cont.Base.Int.{ℤ, pos, ◌+ℤ◌, ◌≤ℤ◌, IsI128, checked_add}
use stellar_stream_hive_cont.Base.Dict.{lookup, insert, unwrap_or}
use stellar_stream_hive_cont.Host.{Env, Address, ok, Outcome-cases}
use stellar_stream_hive_cont.Host.Invoke.{Invoker}
use stellar_stream_hive_cont.Stream.Types.{pending, Stream, StreamEvent}
use stellar_stream_hive_cont.Stream.Math.{withdrawable_amount}
use stellar_stream_hive_cont.Stream.Storage.{
  World, current_id, u64_max, get_sender_streams, get_recipient_streams,
}
use stellar_stream_hive_cont.Stream.VaultClient
use stellar_stream_hive_cont.Stream.Contract.{create_stream, withdraw}

-- The stream that `create_stream` stores.
abbrev pub new_stream : Env → ℕ → Address → Address → Address → ℤ → ℕ → ℕ → ℕ → Bool → Stream
new_stream env id sender recipient token total_amount start_ledger end_ledger cliff_ledger
      cancellable =
    record {
      id = id;
      sender = sender;
      recipient = recipient;
      token = token;
      total_amount = total_amount;
      withdrawn = pos 0;
      start_ledger = start_ledger;
      end_ledger = end_ledger;
      cliff_ledger = cliff_ledger;
      cancellable = cancellable;
      status = pending;
      created_at = env.sequence;
      cancelled_at_ledger = 0;
    }

module _ {W : Type 0} (host : Invoker W) where
  -- A creation that went through.
  pub record Created (env : Env) (s : Stream) (w w' : World W) : Type 0 where
    pub signed : env.authorizes s.sender ≡ true
    pub running : unwrap_or w.paused false ≡ false
    pub positive : pos 1 ≤ℤ s.total_amount
    pub ends_later : s.start_ledger < s.end_ledger
    pub cliff_from : s.start_ledger ≤ s.cliff_ledger
    pub cliff_to : s.cliff_ledger ≤ s.end_ledger
    pub fresh_id : s.id ≡ current_id w + 1
    pub id_fits : current_id w < u64_max
    pub id_set : w'.last_stream_id ≡ some (current_id w + 1)
    pub stored : w'.streams ≡ insert s.id s w.streams
    pub sent :
        w'.sender_streams
        ≡ insert s.sender (get_sender_streams s.sender w ++ (s.id ∷ [])) w.sender_streams
    pub received :
        w'.recipient_streams
        ≡ insert s.recipient
            (get_recipient_streams s.recipient w ++ (s.id ∷ []))
            w.recipient_streams
    pub funded :
        (vault : Address) × (w.vault ≡ some vault)
        × (VaultClient.deposit host env vault s.sender s.token s.total_amount s.id w.outside
            ≡ some w'.outside)
    pub vault_kept : w'.vault ≡ w.vault
    pub admin_kept : w'.admin ≡ w.admin
    pub paused_kept : w'.paused ≡ w.paused
    pub logged :
        w'.events
        ≡ StreamEvent.create s.id s.sender s.recipient s.token s.total_amount s.start_ledger
            s.end_ledger s.cliff_ledger s.cancellable
          ∷ w.events

  pub create_stream_ok :
      (env : Env) (sender recipient token : Address) (total_amount : ℤ)
      (start_ledger end_ledger cliff_ledger : ℕ) (cancellable : Bool) (id : ℕ) (w w' : World W)
      → create_stream host env sender recipient token total_amount start_ledger end_ledger
          cliff_ledger cancellable w
        ≡ ok (id, w')
      → Created env
          (new_stream env id sender recipient token total_amount start_ledger end_ledger
            cliff_ledger cancellable)
          w
          w'
  unfolding create_stream
  create_stream_ok env sender recipient token total start end cliff cancellable id w w' h =
      elim (Option-cases w.vault) [
        | inl e ↦ absurd (ground arith)
        | inr (vault, e) ↦ record {
          signed = ground arith;
          running = ground arith;
          positive = ground arith;
          ends_later = ground arith;
          cliff_from = ground arith;
          cliff_to = ground arith;
          fresh_id = ground arith;
          id_fits = ground arith;
          id_set = ground arith;
          stored = ground arith;
          sent = ground arith;
          received = ground arith;
          funded = (vault, e, ground arith);
          vault_kept = ground arith;
          admin_kept = ground arith;
          paused_kept = ground arith;
          logged = ground arith;
        }
      ]

  -- A withdrawal from the stored stream `s` that went through.
  pub record Withdrawn (env : Env) (recipient : Address) (stream_id : ℕ) (amount : ℤ) (s : Stream)
      (w w' : World W) : Type 0 where
    pub found : lookup stream_id w.streams ≡ some s
    pub signed : env.authorizes recipient ≡ true
    pub owned : s.recipient ≡ recipient
    pub positive : pos 1 ≤ℤ amount
    pub allowed :
        (available : ℤ) × (withdrawable_amount s env.sequence ≡ ok available)
        × (amount ≤ℤ available)
    pub fits : IsI128 (s.withdrawn +ℤ amount)
    pub stored : w'.streams ≡ insert s.id (record s { withdrawn = s.withdrawn +ℤ amount }) w.streams
    pub released :
        (vault : Address) × (w.vault ≡ some vault)
        × (VaultClient.release host env vault env.current_contract recipient s.token amount
              stream_id w.outside
            ≡ some w'.outside)
    pub others_kept :
        (w'.admin ≡ w.admin)
        × (w'.vault ≡ w.vault)
        × (w'.paused ≡ w.paused)
        × (w'.last_stream_id ≡ w.last_stream_id)
        × (w'.sender_streams ≡ w.sender_streams)
        × (w'.recipient_streams ≡ w.recipient_streams)
    pub logged : w'.events ≡ StreamEvent.withdraw stream_id recipient amount ∷ w.events

  withdraw_known :
      (env : Env) (recipient : Address) (stream_id : ℕ) (amount : ℤ) (s : Stream) (vault : Address)
      (available : ℤ) (w w' : World W)
      → lookup stream_id w.streams ≡ some s
      → w.vault ≡ some vault
      → withdrawable_amount s env.sequence ≡ ok available
      → withdraw host env recipient stream_id amount w ≡ ok (tt, w')
      → Withdrawn env recipient stream_id amount s w w'
  unfolding withdraw checked_add
  withdraw_known env recipient id amount s vault available w w' e f g h = record {
    found = e;
    signed = ground arith;
    owned = ground arith;
    positive = ground arith;
    allowed = (available, g, ground arith);
    fits = ground arith;
    stored = ground arith;
    released = (vault, f, ground arith);
    others_kept = ground arith;
    logged = ground arith;
  }

  pub withdraw_ok :
      (env : Env) (recipient : Address) (stream_id : ℕ) (amount : ℤ) (w w' : World W)
      → withdraw host env recipient stream_id amount w ≡ ok (tt, w')
      → (s : Stream) × Withdrawn env recipient stream_id amount s w w'
  unfolding withdraw
  withdraw_ok env recipient id amount w w' h = elim (Option-cases (lookup id w.streams)) [
    | inl e ↦ absurd (ground arith)
    | inr (s, e) ↦ elim (Option-cases w.vault) [
      | inl f ↦ absurd (ground arith)
      | inr (vault, f) ↦ elim (Outcome-cases (withdrawable_amount s env.sequence)) [
        | inl (available, g) ↦
            (s, withdraw_known env recipient id amount s vault available w w' e f g h)
        | inr n ↦ absurd (ground arith)
      ]
    ]
  ]

-- ===== src/Stream/CancelEffect.antt =====
-- What `cancel_stream` has done when it ends with `ok` (contracts/stream/src/lib.rs).
use stellar_stream_hive_cont.Base.{
  ℕ, ◌≡◌, ◌≢◌, ◌⊎◌, inl, inr, true, some, ◌∷◌, arith, Option-cases, Bool-cases,
}
use stellar_stream_hive_cont.Base.Int.{ℤ, pos, ◌-ℤ◌, ◌≤ℤ◌, ltb_ℤ, checked_sub}
use stellar_stream_hive_cont.Base.Dict.{lookup, insert}
use stellar_stream_hive_cont.Host.{Env, Address, ok, Outcome-cases}
use stellar_stream_hive_cont.Host.Invoke.{Invoker}
use stellar_stream_hive_cont.Stream.Types.{completed, cancelled, Stream, StreamEvent}
use stellar_stream_hive_cont.Stream.Math.{streamed_amount, compute_status}
use stellar_stream_hive_cont.Stream.Storage.{World}
use stellar_stream_hive_cont.Stream.VaultClient
use stellar_stream_hive_cont.Stream.Contract.{cancel_stream}

-- A stream stopped at the ledger `now`.
abbrev pub stopped : Stream → ℕ → Stream
stopped s now = record s { status = cancelled; cancelled_at_ledger = now }

module _ {W : Type 0} (host : Invoker W) where
  -- A cancellation of the stored stream `s` that went through.
  pub record Cancelled (env : Env) (sender : Address) (stream_id : ℕ) (s : Stream) (streamed : ℤ)
      (w w' : World W) : Type 0 where
    pub found : lookup stream_id w.streams ≡ some s
    pub signed : env.authorizes sender ≡ true
    pub owned : s.sender ≡ sender
    pub permitted : s.cancellable ≡ true
    pub not_stopped : compute_status s env.sequence ≢ cancelled
    pub not_done : compute_status s env.sequence ≢ completed
    pub streamed_now : streamed_amount (stopped s env.sequence) env.sequence ≡ ok streamed
    pub stored : w'.streams ≡ insert s.id (stopped s env.sequence) w.streams
    pub refunded :
        ((s.total_amount -ℤ streamed ≤ℤ pos 0) × (w'.outside ≡ w.outside))
        ⊎ ((pos 1 ≤ℤ s.total_amount -ℤ streamed)
            × ((vault : Address) × (w.vault ≡ some vault)
                × (VaultClient.refund host env vault env.current_contract sender s.token
                      (s.total_amount -ℤ streamed)
                      stream_id
                      w.outside
                    ≡ some w'.outside)))
    pub others_kept :
        (w'.admin ≡ w.admin)
        × (w'.vault ≡ w.vault)
        × (w'.paused ≡ w.paused)
        × (w'.last_stream_id ≡ w.last_stream_id)
        × (w'.sender_streams ≡ w.sender_streams)
        × (w'.recipient_streams ≡ w.recipient_streams)
    pub logged :
        w'.events
        ≡ StreamEvent.cancel stream_id sender streamed (s.total_amount -ℤ streamed) ∷ w.events

  cancel_refunded :
      (env : Env) (sender : Address) (stream_id : ℕ) (s : Stream) (streamed : ℤ) (w w' : World W)
      → lookup stream_id w.streams ≡ some s
      → streamed_amount (stopped s env.sequence) env.sequence ≡ ok streamed
      → cancel_stream host env sender stream_id w ≡ ok (tt, w')
      → ((s.total_amount -ℤ streamed ≤ℤ pos 0) × (w'.outside ≡ w.outside))
        ⊎ ((pos 1 ≤ℤ s.total_amount -ℤ streamed)
            × ((vault : Address) × (w.vault ≡ some vault)
                × (VaultClient.refund host env vault env.current_contract sender s.token
                      (s.total_amount -ℤ streamed)
                      stream_id
                      w.outside
                    ≡ some w'.outside)))
  unfolding cancel_stream checked_sub
  cancel_refunded env sender id s streamed w w' e g h =
      elim (Bool-cases (ltb_ℤ (pos 0) (s.total_amount -ℤ streamed))) [
        | inl more ↦ elim (Option-cases w.vault) [
          | inl f ↦ absurd (ground arith)
          | inr (vault, f) ↦ inr (ground arith, (vault, f, ground arith))
        ]
        | inr nothing ↦ inl (ground arith, ground arith)
      ]

  cancel_known :
      (env : Env) (sender : Address) (stream_id : ℕ) (s : Stream) (streamed : ℤ) (w w' : World W)
      → lookup stream_id w.streams ≡ some s
      → streamed_amount (stopped s env.sequence) env.sequence ≡ ok streamed
      → cancel_stream host env sender stream_id w ≡ ok (tt, w')
      → Cancelled env sender stream_id s streamed w w'
  unfolding cancel_stream checked_sub
  cancel_known env sender id s streamed w w' e g h = record {
    found = e;
    signed = ground arith;
    owned = ground arith;
    permitted = ground arith;
    not_stopped = ground arith;
    not_done = ground arith;
    streamed_now = g;
    stored = ground arith;
    refunded = cancel_refunded env sender id s streamed w w' e g h;
    others_kept = ground arith;
    logged = ground arith;
  }

  pub cancel_stream_ok :
      (env : Env) (sender : Address) (stream_id : ℕ) (w w' : World W)
      → cancel_stream host env sender stream_id w ≡ ok (tt, w')
      → (s : Stream) × (streamed : ℤ) × Cancelled env sender stream_id s streamed w w'
  unfolding cancel_stream
  cancel_stream_ok env sender id w w' h = elim (Option-cases (lookup id w.streams)) [
    | inl e ↦ absurd (ground arith)
    | inr (s, e) ↦ elim (Outcome-cases (streamed_amount (stopped s env.sequence) env.sequence)) [
      | inl (streamed, g) ↦ (s, streamed, cancel_known env sender id s streamed w w' e g h)
      | inr n ↦ absurd (ground arith)
    ]
  ]

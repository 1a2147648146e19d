-- ===== src/Stream/Pausing.antt =====
-- What pausing blocks, and what it does not.
use stellar_stream_hive_cont.Base.{
  ℕ, ◌≡◌, refl, Bool, true, if◌then◌else◌, arith, inl, inr, Option-cases,
}
use stellar_stream_hive_cont.Base.Int.{ℤ}
use stellar_stream_hive_cont.Base.Dict.{lookup}
use stellar_stream_hive_cont.Host.{Env, Address, Outcome, ok, err, trap, Outcome-cases, value_of}
use stellar_stream_hive_cont.Host.Invoke.{Invoker}
use stellar_stream_hive_cont.Stream.Types.{StreamError}
use stellar_stream_hive_cont.Stream.Types
use stellar_stream_hive_cont.Stream.Math.{withdrawable_amount}
use stellar_stream_hive_cont.Stream.Storage.{World, set_paused}
use stellar_stream_hive_cont.Stream.Contract.{create_stream, withdraw, withdraw_max, cancel_stream}

-- The outcome of a call with its state changed by `f`.
abbrev pub on_state : {S E A : Type 0} → (S → S) → Outcome E (A × S) → Outcome E (A × S)
on_state f (ok (a, s)) = ok (a, f s)
on_state f (err e) = err e
on_state f trap = trap

module _ {W : Type 0} (host : Invoker W) (p : Bool) where
  withdraw-set_paused :
      (env : Env) (recipient : Address) (id : ℕ) (amount : ℤ) (w : World W)
      → withdraw host env recipient id amount (set_paused p w)
        ≡ on_state (set_paused p) (withdraw host env recipient id amount w)
  unfolding withdraw
  withdraw-set_paused env recipient id amount w = ground arith

  withdraw_max-set_paused :
      (env : Env) (recipient : Address) (id : ℕ) (w : World W)
      → withdraw_max host env recipient id (set_paused p w)
        ≡ on_state (set_paused p) (withdraw_max host env recipient id w)
  unfolding withdraw_max
  withdraw_max-set_paused env recipient id w = elim (Option-cases (lookup id w.streams)) [
    | inl e ↦ rw e refl
    | inr (s, e) ↦ elim (Outcome-cases (withdrawable_amount s env.sequence)) [
      | inl (a, f) ↦ ground (arith, withdraw-set_paused env recipient id a w)
      | inr n ↦ ground arith
    ]
  ]

  cancel_stream-set_paused :
      (env : Env) (sender : Address) (id : ℕ) (w : World W)
      → cancel_stream host env sender id (set_paused p w)
        ≡ on_state (set_paused p) (cancel_stream host env sender id w)
  unfolding cancel_stream
  cancel_stream-set_paused env sender id w = ground arith

module _ {W : Type 0} (host : Invoker W) where
  create_stream-paused :
      (env : Env) (sender recipient token : Address) (total : ℤ) (first last cliff : ℕ)
      (cancellable : Bool) (w : World W)
      → value_of (
          create_stream host env sender recipient token total first last cliff cancellable
            (set_paused true w))
        ≡ (if env.authorizes sender then err Types.paused else trap)
  unfolding create_stream
  create_stream-paused env sender recipient token total first last cliff cancellable w =
      ground arith

  -- While the contract is paused, `create_stream` answers `paused` to everybody who has authorized
  -- it and traps for all others, whatever its arguments. For the other operations on streams the
  -- flag makes no difference: whichever value it has, `withdraw`, `withdraw_max` and `cancel_stream`
  -- end in the same way and with the same state, but for the flag.
  pub paused-create_stream :
      (env : Env) (a recipient token : Address) (amount : ℤ) (first last cliff id : ℕ)
      (cancellable p : Bool) (w : World W)
      → (value_of (
            create_stream host env a recipient token amount first last cliff cancellable
              (set_paused true w))
          ≡ (if env.authorizes a then err Types.paused else trap))
        × (withdraw host env a id amount (set_paused p w)
            ≡ on_state (set_paused p) (withdraw host env a id amount w))
        × (withdraw_max host env a id (set_paused p w)
            ≡ on_state (set_paused p) (withdraw_max host env a id w))
        × (cancel_stream host env a id (set_paused p w)
            ≡ on_state (set_paused p) (cancel_stream host env a id w))
  paused-create_stream env a recipient token amount first last cliff id cancellable p w = (
    create_stream-paused env a recipient token amount first last cliff cancellable w,
    withdraw-set_paused host p env a id amount w,
    withdraw_max-set_paused host p env a id w,
    cancel_stream-set_paused host p env a id w,
  )

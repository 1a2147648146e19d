-- ===== src/Stream/Expiry.antt =====
-- The life of the instance entry of the stream contract, where contracts/stream/src/storage.rs keeps
-- the counter of ids: `next_stream_id` writes it and asks for no extension.
use stellar_stream_hive_cont.Base.{
  ℕ, ◌≡◌, refl, inl, inr, some, List, [], ◌∷◌, Bool-cases, Option-cases,
}
use stellar_stream_hive_cont.Base.Dict.{lookup}
use stellar_stream_hive_cont.Base.Int.{ℤ, pos, eqb_ℤ}
use stellar_stream_hive_cont.Host.{Env, Outcome, ok, err, trap, is_ok, commit}
use stellar_stream_hive_cont.Host.Invoke.{Invoker}
use stellar_stream_hive_cont.Host.Lifetime.{Keeper, Lifetimes}
use stellar_stream_hive_cont.Stream.Types.{Stream, StreamError}
use stellar_stream_hive_cont.Stream.Math.{withdrawable_amount}
use stellar_stream_hive_cont.Stream.Storage.{World}
use stellar_stream_hive_cont.Stream.Steps.{Call, invoke}
use stellar_stream_hive_cont.Stream.Lifetimes.{Entry, draw, writes, lifetimes}

-- The calls by which streams are created, withdrawn from and cancelled.
abbrev pub IsDaily : Call → Type 0
IsDaily (Call.initialize admin vault) = ⊥
IsDaily Call.pause = ⊥
IsDaily Call.unpause = ⊥
IsDaily (Call.transfer_admin a) = ⊥
IsDaily _ = Unit {0}

module _ {W : Type 0} (host : Invoker W) (keeper : Keeper) where
  -- A list of calls, one after the other, the first in front.
  unfoldable pub live : List (Env × Call) → World W → Lifetimes Entry → Lifetimes Entry
  live [] w l = l
  live ((env, c) ∷ cs) w l =
      live cs (commit w (invoke host env c w)) (lifetimes host keeper env c w l)

  abbrev pub AllDaily : List (Env × Call) → Type 0
  AllDaily [] = Unit {0}
  AllDaily (x ∷ cs) = IsDaily x.1 × AllDaily cs

  draw-instance :
      (env : Env) (s : Stream) (r : Outcome StreamError ℤ) (l : Lifetimes Entry)
      → draw keeper env s r l Entry.instance_entry ≡ l Entry.instance_entry
  draw-instance env s (ok available) l = elim (Bool-cases (eqb_ℤ available (pos 0))) [
    | inl nothing ↦ rw nothing refl
    | inr something ↦ rw something refl
  ]
  draw-instance env s (err e) l = refl
  draw-instance env s trap l = refl

  writes-instance :
      (env : Env) (c : Call) (w : World W) (l : Lifetimes Entry)
      → IsDaily c
      → (until : ℕ) → l Entry.instance_entry ≡ some until
      → writes host keeper env c w l Entry.instance_entry ≡ some until
  writes-instance env (Call.initialize admin vault) w l d until there = elim d [ ]
  writes-instance env Call.pause w l d until there = elim d [ ]
  writes-instance env Call.unpause w l d until there = elim d [ ]
  writes-instance env (Call.transfer_admin a) w l d until there = elim d [ ]
  writes-instance env (Call.create_stream sender recipient token total first last cliff cancellable)
        w l d until there =
      rw there refl
  writes-instance env (Call.withdraw recipient id amount) w l d until there =
      elim (Option-cases (lookup id w.streams)) [
        | inl missing ↦ rw missing there
        | inr (s, found) ↦ rw found there
      ]
  writes-instance env (Call.withdraw_max recipient id) w l d until there =
      elim (Option-cases (lookup id w.streams)) [
        | inl missing ↦ rw missing there
        | inr (s, found) ↦
            rw (found, draw-instance env s (withdrawable_amount s env.sequence) l) there
      ]
  writes-instance env (Call.cancel_stream sender id) w l d until there =
      elim (Option-cases (lookup id w.streams)) [
        | inl missing ↦ rw missing there
        | inr (s, found) ↦ rw found there
      ]

  lifetimes-instance :
      (env : Env) (c : Call) (w : World W) (l : Lifetimes Entry)
      → IsDaily c
      → (until : ℕ) → l Entry.instance_entry ≡ some until
      → lifetimes host keeper env c w l Entry.instance_entry ≡ some until
  unfolding lifetimes
  lifetimes-instance env c w l d until there = elim (Bool-cases (is_ok (invoke host env c w))) [
    | inl through ↦ rw through (writes-instance env c w l d until there)
    | inr failed ↦ rw failed there
  ]

  -- However many streams are created, withdrawn from and cancelled, by whomever and in whichever
  -- ledgers: the instance entry, which holds the admin, the vault, the pause flag and the counter of
  -- ids, still ends its life in the ledger in which it would have ended it without those calls.
  pub instance_expires :
      (calls : List (Env × Call)) (w : World W) (l : Lifetimes Entry) (until : ℕ)
      → AllDaily calls
      → l Entry.instance_entry ≡ some until
      → live calls w l Entry.instance_entry ≡ some until
  unfolding live
  instance_expires [] w l until d there = there
  instance_expires ((env, c) ∷ cs) w l until d there =
      instance_expires cs (commit w (invoke host env c w)) (lifetimes host keeper env c w l) until
        d.1 (lifetimes-instance env c w l d.0 until there)

-- ===== src/Stream/Unchanged.antt =====
-- What a call of the stream contract leaves in an entry, and how long the entries live that it writes.
use stellar_stream_hive_cont.Base.{ℕ, ◌≡◌, refl, ◌⊎◌, inl, inr, true, arith, ==-refl}
use stellar_stream_hive_cont.Base.Dict.{lookup, insert}
use stellar_stream_hive_cont.Host.{Env}
use stellar_stream_hive_cont.Host.Lifetime.{
  Keeper, IsKeeper, Lifetimes, LivesOn, kept_alive-LivesOn, kept_alive_stays, inserted,
}
use stellar_stream_hive_cont.Stream.Types.{Stream}
use stellar_stream_hive_cont.Stream.Storage.{World}
use stellar_stream_hive_cont.Stream.Lifetimes.{Entry, same_entry, ledger_threshold, kept}

module _ {W : Type 0} where
  -- What is stored in an entry is the same before and after, but for the counter of ids.
  abbrev pub Unchanged : Entry → World W → World W → Type 0
  Unchanged Entry.instance_entry w w' =
      (w'.admin ≡ w.admin) × (w'.vault ≡ w.vault) × (w'.paused ≡ w.paused)
  Unchanged (Entry.stream_entry id) w w' = lookup id w'.streams ≡ lookup id w.streams
  Unchanged (Entry.sender_entry a) w w' = lookup a w'.sender_streams ≡ lookup a w.sender_streams
  Unchanged (Entry.recipient_entry a) w w' =
      lookup a w'.recipient_streams ≡ lookup a w.recipient_streams

  pub Unchanged-refl : (e : Entry) (w : World W) → Unchanged e w w
  Unchanged-refl Entry.instance_entry w = (refl, refl, refl)
  Unchanged-refl (Entry.stream_entry id) w = refl
  Unchanged-refl (Entry.sender_entry a) w = refl
  Unchanged-refl (Entry.recipient_entry a) w = refl

-- An entry is the same after a call, or lives for `ledger_threshold` ledgers.
abbrev pub Lasts : {W : Type 0} → ℕ → World W → World W → Lifetimes Entry → Entry → Type 0
Lasts now w w' l e = Unchanged e w w' ⊎ LivesOn now ledger_threshold e l

module _ (keeper : Keeper) (law : IsKeeper keeper) where
  same_entry_refl : (e : Entry) → same_entry e e ≡ true
  same_entry_refl Entry.instance_entry = refl
  same_entry_refl (Entry.stream_entry id) = ==-refl id
  same_entry_refl (Entry.sender_entry a) = ==-refl a
  same_entry_refl (Entry.recipient_entry a) = ==-refl a

  pub kept-LivesOn :
      (env : Env) (e : Entry) (l : Lifetimes Entry)
      → LivesOn env.sequence ledger_threshold e (kept keeper env e l)
  kept-LivesOn env e l =
      kept_alive-LivesOn same_entry keeper law env.sequence _ _ e l (omega arith)
        (same_entry_refl e)

  pub kept_stays :
      (env : Env) (e x : Entry) (l : Lifetimes Entry)
      → LivesOn env.sequence ledger_threshold x l
      → LivesOn env.sequence ledger_threshold x (kept keeper env e l)
  kept_stays env e x l = kept_alive_stays same_entry keeper law env.sequence _ _ _ e x l

module _ {W : Type 0} where
  -- A call that writes the settings.
  pub settings-Lasts :
      (now : ℕ) (w w' : World W) (l : Lifetimes Entry) (e : Entry)
      → w'.streams ≡ w.streams
      → w'.sender_streams ≡ w.sender_streams
      → w'.recipient_streams ≡ w.recipient_streams
      → LivesOn now ledger_threshold Entry.instance_entry l
      → Lasts now w w' l e
  settings-Lasts now w w' l Entry.instance_entry a b c alive = inr alive
  settings-Lasts now w w' l (Entry.stream_entry id) a b c alive = inl (rw a refl)
  settings-Lasts now w w' l (Entry.sender_entry id) a b c alive = inl (rw b refl)
  settings-Lasts now w w' l (Entry.recipient_entry id) a b c alive = inl (rw c refl)

  -- A call that writes one stream.
  pub stream-Lasts :
      (now key : ℕ) (x : Stream) (w w' : World W) (l : Lifetimes Entry) (e : Entry)
      → Unchanged Entry.instance_entry w w'
      → w'.streams ≡ insert key x w.streams
      → w'.sender_streams ≡ w.sender_streams
      → w'.recipient_streams ≡ w.recipient_streams
      → LivesOn now ledger_threshold (Entry.stream_entry key) l
      → Lasts now w w' l e
  stream-Lasts now key x w w' l Entry.instance_entry s a b c alive = inl s
  stream-Lasts now key x w w' l (Entry.stream_entry id) s a b c alive =
      inserted now ledger_threshold key id x w.streams w'.streams Entry.stream_entry l a alive
  stream-Lasts now key x w w' l (Entry.sender_entry id) s a b c alive = inl (rw b refl)
  stream-Lasts now key x w w' l (Entry.recipient_entry id) s a b c alive = inl (rw c refl)

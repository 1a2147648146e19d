-- ===== src/Vault/Expiry.antt =====
-- The life of a stream's token entry, which contracts/vault/src/lib.rs reads at each deposit and
-- payout and writes at the first deposit.
use stellar_stream_hive_cont.Base.{
  ℕ, ◌≡◌, inl, inr, some, List, [], ◌∷◌, ◌==◌, arith, Bool-cases, Option-cases, ==→eq,
}
use stellar_stream_hive_cont.Base.Int.{ℤ}
use stellar_stream_hive_cont.Base.Dict.{lookup, lookup-insert}
use stellar_stream_hive_cont.Host.{Env, Address, ok, commit}
use stellar_stream_hive_cont.Host.Token.{TokenClient}
use stellar_stream_hive_cont.Host.Lifetime.{Keeper, Lifetimes, settled_elim}
use stellar_stream_hive_cont.Vault.Types.{PayoutKind}
use stellar_stream_hive_cont.Vault.Storage.{World}
use stellar_stream_hive_cont.Vault.Contract.{
  initialize, set_stream_contract, deposit, authorize_and_pay, release, refund,
}
use stellar_stream_hive_cont.Vault.Effects.{deposit_ok, authorize_and_pay_ok}
use stellar_stream_hive_cont.Vault.Steps.{Call, invoke}
use stellar_stream_hive_cont.Vault.Lifetimes as Writes
use stellar_stream_hive_cont.Vault.Lifetimes.{Entry, writes, lifetimes}

module _ {T : Type 0} (client : TokenClient T) (keeper : Keeper) where
  -- The token of the stream is fixed, and its entry lives until `until`.
  abbrev Ends : ℕ → Address → ℕ → World T → Lifetimes Entry → Type 0
  Ends id token until w l =
      (lookup id w.stream_token ≡ some token) × (l (Entry.token_entry id) ≡ some until)

  deposit-Ends :
      (env : Env) (from a : Address) (amount : ℤ) (i id : ℕ) (token : Address) (until : ℕ)
      (w w' : World T) (l : Lifetimes Entry)
      → Ends id token until w l
      → deposit client env from a amount i w ≡ ok (tt, w')
      → Ends id token until w' (Writes.deposit keeper env a i (lookup i w.stream_token) l)
  deposit-Ends env from a amount i id token until w w' l (named, there) run =
      let d = deposit_ok client env from a amount i w w' run in
      elim (Option-cases (lookup i w.stream_token)) [
        | inr (t, known) ↦ let same = rw known at d.token_set in rw known (rw same named, there)
        | inl unknown ↦
            let new_token = rw unknown at d.token_set in
            elim (Bool-cases (id == i)) [
              | inl here ↦ let e = rw (← ==→eq id i here, named) at unknown in absurd (ground arith)
              | inr other ↦
                  rw unknown (
                    rw (new_token, lookup-insert id i a w.stream_token, other) named,
                    rw other there,
                  )
            ]
      ]

  payout-Ends :
      (env : Env) (caller to a : Address) (amount : ℤ) (i : ℕ) (kind : PayoutKind) (id : ℕ)
      (token : Address) (until : ℕ) (w w' : World T) (l : Lifetimes Entry)
      → Ends id token until w l
      → authorize_and_pay client env caller to a amount i kind w ≡ ok (tt, w')
      → Ends id token until w' (Writes.authorize_and_pay keeper env a i l)
  payout-Ends env caller to a amount i kind id token until w w' l (named, there) run =
      let d = authorize_and_pay_ok client env caller to a amount i kind w w' run in
      (rw d.token_kept named, there)

  success-Ends :
      (env : Env) (c : Call) (id : ℕ) (token : Address) (until : ℕ) (w w' : World T)
      (l : Lifetimes Entry)
      → Ends id token until w l
      → invoke client env c w ≡ ok (tt, w')
      → Ends id token until w' (writes client keeper env c w l)
  unfolding invoke initialize set_stream_contract release refund
  success-Ends env (Call.initialize admin contract) id token until w w' l (named, there) run =
      let same : w'.stream_token ≡ w.stream_token = ground arith in (rw same named, there)
  success-Ends env (Call.set_stream_contract admin contract) id token until w w' l (named, there)
        run =
      let same : w'.stream_token ≡ w.stream_token = ground arith in (rw same named, there)
  success-Ends env (Call.deposit from a amount i) id token until w w' l v run =
      deposit-Ends env from a amount i id token until w w' l v run
  success-Ends env (Call.release caller to a amount i) id token until w w' l v run =
      payout-Ends env caller to a amount i PayoutKind.release id token until w w' l v run
  success-Ends env (Call.refund caller to a amount i) id token until w w' l v run =
      payout-Ends env caller to a amount i PayoutKind.refund id token until w w' l v run

  -- A list of calls, one after the other, the first in front.
  unfoldable pub live : List (Env × Call) → World T → Lifetimes Entry → Lifetimes Entry
  live [] w l = l
  live ((env, c) ∷ cs) w l =
      live cs (commit w (invoke client env c w)) (lifetimes client keeper env c w l)

  -- Once the token of a stream is fixed, its entry ends its life in the ledger that its first deposit
  -- has set, whatever calls are made of the vault after it, deposits and payouts of the stream
  -- included.
  pub token_expires :
      (calls : List (Env × Call)) (id : ℕ) (token : Address) (until : ℕ) (w : World T)
      (l : Lifetimes Entry)
      → lookup id w.stream_token ≡ some token
      → l (Entry.token_entry id) ≡ some until
      → live calls w l (Entry.token_entry id) ≡ some until
  unfolding live lifetimes
  token_expires [] id token until w l named there = there
  token_expires ((env, c) ∷ cs) id token until w l named there =
      let (named', there') =
        settled_elim (Ends id token until) w l (writes client keeper env c w l)
          (invoke client env c w) (named, there)
          (λ w' run. success-Ends env c id token until w w' l (named, there) run) in
      token_expires cs id token until (commit w (invoke client env c w))
        (lifetimes client keeper env c w l) named' there'

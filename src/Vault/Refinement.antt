-- ===== src/Vault/Refinement.antt =====
-- The vault implements the abstract book.
use stellar_stream_hive_cont.Base.{
  List, [], if◌then◌else◌, ℕ, ◌≡◌, refl, ◌∙◌, sym, ◌⊎◌, inl, inr, true, none, some, ◌∷◌, arith,
  Option-cases,
}
use mathlib.Core.Option.{none-ne-some}
use stellar_stream_hive_cont.Base.Int.{ℤ, pos, ◌+ℤ◌, ◌≤ℤ◌, i128_max, int_laws, +ℤ_IsI128}
use stellar_stream_hive_cont.Base.Dict.{lookup, unwrap_or}
use stellar_stream_hive_cont.Host.{Env, Address, ok, is_ok, Outcome-cases, commit, commit_elim}
use stellar_stream_hive_cont.Host.Token.{TokenClient, IsToken}
use stellar_stream_hive_cont.Vault.Types.{PayoutKind, VaultEvent}
use stellar_stream_hive_cont.Vault.Storage.{World, get_stream_balance, get_total_locked}
use stellar_stream_hive_cont.Vault.Contract.{
  initialize, set_stream_contract, deposit, authorize_and_pay, release, refund,
}
use stellar_stream_hive_cont.Vault.Effects.{deposit_succeeds}
use stellar_stream_hive_cont.Vault.Payout.{payout_available}
use stellar_stream_hive_cont.Vault.Accounting.{
  lookup-nonneg, lookup-le-locked_sum, locked_sum-nonneg,
}
use stellar_stream_hive_cont.Vault.Invariant.{IsAccounted}
use stellar_stream_hive_cont.Vault.Steps.{Call, invoke, Step, Reachable}
use stellar_stream_hive_cont.Vault.Custody.{Reachable-IsCustodian}
use stellar_stream_hive_cont.Vault.Book.{Book, book, enter, replay, receive, pay}
use stellar_stream_hive_cont.Vault.Simulation.{invoke-enter}

module _ {T : Type 0} (client : TokenClient T) where
  -- What the token contract must do for a call to go through, and that the sums are i128.
  abbrev pub GoesThrough : Env → Call → World T → Type 0
  GoesThrough env (Call.deposit from token amount id) w =
      ((t : T) × (client.transfer env token from env.current_contract amount w.tokens ≡ some t))
      × (get_total_locked token w +ℤ amount ≤ℤ pos i128_max)
  GoesThrough env (Call.release caller to token amount id) w =
      (t : T) × (client.transfer env token env.current_contract to amount w.tokens ≡ some t)
  GoesThrough env (Call.refund caller to token amount id) w =
      (t : T) × (client.transfer env token env.current_contract to amount w.tokens ≡ some t)
  GoesThrough env _ w = Unit {0}

  -- A deposit that the accounts take goes through.
  pub deposit_available :
      (env : Env) (from token : Address) (amount : ℤ) (id : ℕ) (w : World T) (t : T)
      → IsAccounted w
      → pos 1 ≤ℤ amount
      → env.authorizes from ≡ true
      → (lookup id w.stream_token ≡ none) ⊎ (lookup id w.stream_token ≡ some token)
      → client.transfer env token from env.current_contract amount w.tokens ≡ some t
      → get_total_locked token w +ℤ amount ≤ℤ pos i128_max
      → (w' : World T) × (deposit client env from token amount id w ≡ ok (tt, w'))
  deposit_available env from token amount id w t v positive signed fits paid room =
      let low = lookup-nonneg id w.stream_balance v.nonneg in
      let held : pos 0 ≤ℤ get_total_locked token w =
        rw (v.summed token) (locked_sum-nonneg w.stream_token token w.stream_balance v.nonneg) in
      let below : get_stream_balance id w ≤ℤ get_total_locked token w = elim fits [
        | inl unused ↦ rw (v.funded id unused) held
        | inr used ↦
            rw (v.summed token)
              (lookup-le-locked_sum w.stream_token token id w.stream_balance v.nonneg used)
      ] in
      deposit_succeeds client env from token amount id w t positive signed fits paid
        (+ℤ_IsI128 _ amount low (omega arith) (omega (int_laws, room, below)))
        (+ℤ_IsI128 _ amount held (omega arith) room)

  deposit_complete :
      (env : Env) (from token : Address) (amount : ℤ) (id : ℕ) (w : World T) (b : Book)
      → IsAccounted w
      → GoesThrough env (Call.deposit from token amount id) w
      → receive env from token amount id (book w) ≡ some b
      → (w' : World T) × (deposit client env from token amount id w ≡ ok (tt, w'))
  deposit_complete env from token amount id w b v ((t, paid), room) e =
      deposit_available env from token amount id w t v (ground arith) (ground arith) (ground arith)
        paid room

  payout_complete :
      (env : Env) (caller to token : Address) (amount : ℤ) (id : ℕ) (kind : PayoutKind)
      (w : World T) (t : T) (b : Book)
      → IsAccounted w
      → client.transfer env token env.current_contract to amount w.tokens ≡ some t
      → pay env caller token amount id (book w) ≡ some b
      → (w' : World T) × (authorize_and_pay client env caller to token amount id kind w
          ≡ ok (tt, w'))
  payout_complete env caller to token amount id kind w t b v paid e =
      let positive : pos 1 ≤ℤ amount = ground arith in
      let signed : env.authorizes caller ≡ true = ground arith in
      let trusted : w.stream_contract ≡ some caller = ground arith in
      let covered : amount ≤ℤ get_stream_balance id w = ground arith in
      let fits : (lookup id w.stream_token ≡ none) ⊎ (lookup id w.stream_token ≡ some token) =
        ground arith in
      let named : lookup id w.stream_token ≡ some token = elim fits [
        | inl unused ↦
            let empty = v.funded id unused in let c = rw empty at covered in absurd (omega arith)
        | inr used ↦ used
      ] in
      let (w', run, _, _) =
        payout_available client env caller to token amount id kind w t v positive trusted signed
          named covered paid in
      (w', run)

  enter-invoke :
      (env : Env) (c : Call) (w : World T) (b : Book)
      → IsAccounted w
      → GoesThrough env c w
      → enter env c (book w) ≡ some b
      → (w' : World T) × (invoke client env c w ≡ ok (tt, w'))
  unfolding invoke enter initialize set_stream_contract release refund
  enter-invoke env (Call.initialize admin contract) w b v g e =
      (record w { admin = some admin; stream_contract = some contract }, ground arith)
  enter-invoke env (Call.set_stream_contract admin contract) w b v g e = (
    record w {
      stream_contract = some contract;
      events = VaultEvent.set_stream_contract contract ∷ w.events;
    },
    ground arith,
  )
  enter-invoke env (Call.deposit from token amount id) w b v g e =
      deposit_complete env from token amount id w b v g e
  enter-invoke env (Call.release caller to token amount id) w b v (t, paid) e =
      payout_complete env caller to token amount id PayoutKind.release w t b v paid e
  enter-invoke env (Call.refund caller to token amount id) w b v (t, paid) e =
      payout_complete env caller to token amount id PayoutKind.refund w t b v paid e

  -- In a vault whose accounts add up, a call for which the token contract makes the transfer, if it
  -- asks for one, and after whose deposit the token's total is still an i128: the book that the vault
  -- keeps becomes exactly what the call means for it, and stays as it is where the book refuses it.
  pub book-invoke :
      (env : Env) (c : Call) (w : World T)
      → IsAccounted w
      → GoesThrough env c w
      → book (commit w (invoke client env c w)) ≡ unwrap_or (enter env c (book w)) (book w)
  book-invoke env c w v g = elim (Option-cases (enter env c (book w))) [
    | inl refused ↦
        commit_elim (λ w'. book w' ≡ unwrap_or (enter env c (book w)) (book w)) w
          (invoke client env c w) (rw refused refl)
          (λ w' run.
            let e = invoke-enter client env c w w' v run in
            absurd (none-ne-some _ (sym refused ∙ e)))
    | inr (b, e) ↦
        let (w', run) = enter-invoke env c w b v g e in
        rw (run, invoke-enter client env c w w' v run) refl
  ]

module _ {T : Type 0} (client : TokenClient T) (self : Address) where
  -- The calls on the way to a state that went through, the last in front.
  unfoldable pub gone_through :
      {t : T} {w : World T} → Reachable client self t w → List (Env × Call)
  gone_through Reachable.start = []
  gone_through (Reachable.next {v} r (Step.call env c here quiet)) =
      let before = gone_through r in
      if is_ok (invoke client env c v) then (env, c) ∷ before else before
  gone_through (Reachable.next r (Step.elsewhere u grows)) = gone_through r

module _ {T : Type 0} (client : TokenClient T) (law : IsToken client) (self : Address) where
  -- Over a token contract whose transfers move the amount, whatever calls are made of a vault that
  -- has authorized none itself, and whatever else happens to the tokens that lowers none of its
  -- balances, starting at its deployment with none of its token balances below 0: the abstract book
  -- accepts each call that went through, with its caller and what was authorized in it, in the order
  -- in which they were made, and what they make of a blank book is exactly the book that the vault
  -- keeps.
  pub replay-gone_through :
      (t : T) (w : World T)
      → ((token : Address) → pos 0 ≤ℤ client.balance token self t)
      → (r : Reachable client self t w) → replay (gone_through client self r) ≡ some (book w)
  unfolding replay gone_through
  replay-gone_through t _ h Reachable.start = refl
  replay-gone_through t _ h (Reachable.next {v} r (Step.call env c here quiet)) =
      let i = Reachable-IsCustodian client law self t v h r in
      let earlier = replay-gone_through t v h r in
      elim (Outcome-cases (invoke client env c v)) [
        | inl ((u, w'), run) ↦ rw (run, earlier) (invoke-enter client env c v w' i.accounted run)
        | inr (inl (x, run)) ↦ rw run earlier
        | inr (inr run) ↦ rw run earlier
      ]
  replay-gone_through t _ h (Reachable.next {v} r (Step.elsewhere u grows)) =
      replay-gone_through t v h r

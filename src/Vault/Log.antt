-- ===== src/Vault/Log.antt =====
-- The events of the vault tell its balances (docs/events.md).
use stellar_stream_hive_cont.Base.{
  ℕ, ◌≡◌, refl, sym, ap, ◌⊎◌, ◌∙◌, List, [], ◌∷◌, ◌==◌, inl, inr, arith, Bool-cases, ==→eq,
  if◌then◌else◌,
}
use stellar_stream_hive_cont.Base.Int.{ℤ, pos, ◌+ℤ◌, ◌-ℤ◌}
use stellar_stream_hive_cont.Base.Dict.{insert, lookup-insert}
use stellar_stream_hive_cont.Host.{Env, Address, ok, commit_elim}
use stellar_stream_hive_cont.Host.Token.{TokenClient}
use stellar_stream_hive_cont.Vault.Types.{VaultEvent, PayoutKind}
use stellar_stream_hive_cont.Vault.Storage.{World, get_stream_balance, get_total_locked}
use stellar_stream_hive_cont.Vault.Contract.{
  initialize, set_stream_contract, deposit, authorize_and_pay, release, refund, payout_event,
}
use stellar_stream_hive_cont.Vault.Effects.{balance-insert, deposit_ok, authorize_and_pay_ok}
use stellar_stream_hive_cont.Vault.Steps.{Call, invoke, Step, Reachable}

-- What the events say is held for a stream, the newest first.
unfoldable pub held_for : ℕ → List VaultEvent → ℤ
held_for id [] = pos 0
held_for id (VaultEvent.deposit i from token amount ∷ es) =
    let before = held_for id es in if id == i then before +ℤ amount else before
held_for id (VaultEvent.release i to token amount ∷ es) =
    let before = held_for id es in if id == i then before -ℤ amount else before
held_for id (VaultEvent.refund i to token amount ∷ es) =
    let before = held_for id es in if id == i then before -ℤ amount else before
held_for id (_ ∷ es) = held_for id es

-- What the events say is held of a token.
unfoldable pub held_in : Address → List VaultEvent → ℤ
held_in t [] = pos 0
held_in t (VaultEvent.deposit i from token amount ∷ es) =
    let before = held_in t es in if t == token then before +ℤ amount else before
held_in t (VaultEvent.release i to token amount ∷ es) =
    let before = held_in t es in if t == token then before -ℤ amount else before
held_in t (VaultEvent.refund i to token amount ∷ es) =
    let before = held_in t es in if t == token then before -ℤ amount else before
held_in t (_ ∷ es) = held_in t es

module _ {T : Type 0} where
  pub record IsLogged (w : World T) : Type 0 where
    pub balances : (id : ℕ) → get_stream_balance id w ≡ held_for id w.events
    pub totals : (token : Address) → get_total_locked token w ≡ held_in token w.events

  total-insert :
      (t token : Address) (b : ℤ) (w w' : World T)
      → w'.total_locked ≡ insert token b w.total_locked
      → get_total_locked t w' ≡ (if t == token then b else get_total_locked t w)
  total-insert t token b w w' e = rw (e, lookup-insert t token b w.total_locked) (ground arith)

-- A balance and what the events say of it change together.
together :
    (i id : ℕ) (f g : ℕ → ℤ) (change : ℤ → ℤ)
    → ((j : ℕ) → f j ≡ g j)
    → (if i == id then change (f id) else f i) ≡ (if i == id then change (g i) else g i)
together i id f g change h = elim (Bool-cases (i == id)) [
  | inl same ↦ rw (same, ← ==→eq i id same) (ap change (h i))
  | inr other ↦ rw other (h i)
]

-- What a change of one balance and one total, and an event that reports it, do.
changed-IsLogged :
    {T : Type 0} (id token : ℕ) (change : ℤ → ℤ) (w w' : World T)
    → ((i : ℕ)
        → get_stream_balance i w'
          ≡ (if i == id then change (get_stream_balance id w) else get_stream_balance i w))
    → ((t : Address)
        → get_total_locked t w'
          ≡ (if t == token then change (get_total_locked token w) else get_total_locked t w))
    → ((i : ℕ)
        → held_for i w'.events
          ≡ (if i == id then change (held_for i w.events) else held_for i w.events))
    → ((t : Address)
        → held_in t w'.events
          ≡ (if t == token then change (held_in t w.events) else held_in t w.events))
    → IsLogged w
    → IsLogged w'
changed-IsLogged id token change w w' b t f g v = record {
  balances = λ i.
      b i
      ∙ together i id (λ j. get_stream_balance j w) (λ j. held_for j w.events) change v.balances
      ∙ sym (f i);
  totals = λ a.
      t a
      ∙ together a token (λ j. get_total_locked j w) (λ j. held_in j w.events) change v.totals
      ∙ sym (g a);
}

module _ {T : Type 0} (client : TokenClient T) where
  deposit-IsLogged :
      (env : Env) (from token : Address) (amount : ℤ) (id : ℕ) (w w' : World T)
      → deposit client env from token amount id w ≡ ok (tt, w')
      → IsLogged w
      → IsLogged w'
  unfolding held_for held_in
  deposit-IsLogged env from token amount id w w' run v =
      let d = deposit_ok client env from token amount id w w' run in
      changed-IsLogged id token (λ b. b +ℤ amount) w w'
        (λ i. balance-insert i id _ w w' d.balance_set)
        (λ t. total-insert t token _ w w' d.total_set) (λ i. rw d.logged refl)
        (λ t. rw d.logged refl) v

  -- What the event of a payout reports.
  payout-held :
      (kind : PayoutKind) (id i : ℕ) (to token t : Address) (amount : ℤ) (es : List VaultEvent)
      → (held_for i (payout_event client kind id to token amount ∷ es)
          ≡ (if i == id then held_for i es -ℤ amount else held_for i es))
        × (held_in t (payout_event client kind id to token amount ∷ es)
            ≡ (if t == token then held_in t es -ℤ amount else held_in t es))
  unfolding held_for held_in
  payout-held PayoutKind.release id i to token t amount es = (refl, refl)
  payout-held PayoutKind.refund id i to token t amount es = (refl, refl)

  payout-IsLogged :
      (env : Env) (caller to token : Address) (amount : ℤ) (id : ℕ) (kind : PayoutKind)
      (w w' : World T)
      → authorize_and_pay client env caller to token amount id kind w ≡ ok (tt, w')
      → IsLogged w
      → IsLogged w'
  payout-IsLogged env caller to token amount id kind w w' run v =
      let d = authorize_and_pay_ok client env caller to token amount id kind w w' run in
      changed-IsLogged id token (λ b. b -ℤ amount) w w'
        (λ i. balance-insert i id _ w w' d.balance_set)
        (λ t. total-insert t token _ w w' d.total_set)
        (λ i. rw d.logged (payout-held kind id i to token token amount w.events).0)
        (λ t. rw d.logged (payout-held kind id id to token t amount w.events).1) v

  -- A call that changes no balance, and publishes nothing about one.
  silent-IsLogged :
      (w w' : World T)
      → w'.stream_balance ≡ w.stream_balance
      → w'.total_locked ≡ w.total_locked
      → (w'.events ≡ w.events)
        ⊎ ((a : Address) × (w'.events ≡ VaultEvent.set_stream_contract a ∷ w.events))
      → IsLogged w
      → IsLogged w'
  unfolding held_for held_in
  silent-IsLogged w w' b t (inl e) v = record {
    balances = λ i. rw (b, e) (v.balances i);
    totals = λ a. rw (t, e) (v.totals a);
  }
  silent-IsLogged w w' b t (inr (c, e)) v = record {
    balances = λ i. rw (b, e) (v.balances i);
    totals = λ a. rw (t, e) (v.totals a);
  }

  invoke-IsLogged :
      (env : Env) (c : Call) (w w' : World T)
      → invoke client env c w ≡ ok (tt, w')
      → IsLogged w
      → IsLogged w'
  unfolding invoke initialize set_stream_contract release refund
  invoke-IsLogged env (Call.initialize admin contract) w w' run v =
      silent-IsLogged w w' (ground arith) (ground arith) (inl (ground arith)) v
  invoke-IsLogged env (Call.set_stream_contract admin contract) w w' run v =
      silent-IsLogged w w' (ground arith) (ground arith) (inr (contract, ground arith)) v
  invoke-IsLogged env (Call.deposit from token amount id) w w' run v =
      deposit-IsLogged env from token amount id w w' run v
  invoke-IsLogged env (Call.release caller to token amount id) w w' run v =
      payout-IsLogged env caller to token amount id PayoutKind.release w w' run v
  invoke-IsLogged env (Call.refund caller to token amount id) w w' run v =
      payout-IsLogged env caller to token amount id PayoutKind.refund w w' run v

  Reachable-IsLogged :
      (self : Address) (t : T) (w : World T) → Reachable client self t w → IsLogged w
  unfolding held_for held_in
  Reachable-IsLogged self t _ Reachable.start = record { balances = λ i. refl; totals = λ a. refl }
  Reachable-IsLogged self t _ (Reachable.next {v} r (Step.call env c here quiet)) =
      commit_elim IsLogged v (invoke client env c v) (Reachable-IsLogged self t v r)
        (λ w' run. invoke-IsLogged env c v w' run (Reachable-IsLogged self t v r))
  Reachable-IsLogged self t _ (Reachable.next {v} r (Step.elsewhere u grows)) =
      let i = Reachable-IsLogged self t v r in record { balances = i.balances; totals = i.totals }

  -- In every state that a vault can reach from its deployment, whatever is called: the balance of
  -- each stream is the sum of the deposits that the events report for it less the releases and
  -- refunds, and the total locked of each token is the same sum over the events in that token.
  pub balances-held :
      (self : Address) (t : T) (w : World T)
      → Reachable client self t w
      → (id : ℕ) (token : Address)
      → (get_stream_balance id w ≡ held_for id w.events)
        × (get_total_locked token w ≡ held_in token w.events)
  balances-held self t w r id token =
      let v = Reachable-IsLogged self t w r in (v.balances id, v.totals token)

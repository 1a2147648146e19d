-- ===== src/Vault/Lasting.antt =====
-- How long the entries live that a call of the vault changes.
use stellar_stream_hive_cont.Base.{ℕ, ◌≡◌, refl, ◌⊎◌, inl, inr, true, arith, ==-refl, Option-cases}
use stellar_stream_hive_cont.Base.Int.{ℤ}
use stellar_stream_hive_cont.Base.Dict.{lookup, insert}
use stellar_stream_hive_cont.Host.{Env, Address, ok, commit}
use stellar_stream_hive_cont.Host.Token.{TokenClient}
use stellar_stream_hive_cont.Host.Lifetime.{
  Keeper, IsKeeper, Lifetimes, LivesOn, kept_alive-LivesOn, kept_alive_stays, inserted,
  settled_elim,
}
use stellar_stream_hive_cont.Vault.Types.{PayoutKind}
use stellar_stream_hive_cont.Vault.Storage.{World}
use stellar_stream_hive_cont.Vault.Contract.{
  initialize, set_stream_contract, deposit, authorize_and_pay, release, refund,
}
use stellar_stream_hive_cont.Vault.Effects.{deposit_ok, authorize_and_pay_ok}
use stellar_stream_hive_cont.Vault.Steps.{Call, invoke}
use stellar_stream_hive_cont.Vault.Lifetimes as Writes
use stellar_stream_hive_cont.Vault.Lifetimes.{
  Entry, same_entry, ledger_threshold, kept, writes, lifetimes,
}

module _ {T : Type 0} where
  -- What is stored in an entry is the same before and after.
  abbrev pub Unchanged : Entry → World T → World T → Type 0
  Unchanged Entry.instance_entry w w' =
      (w'.admin ≡ w.admin) × (w'.stream_contract ≡ w.stream_contract)
  Unchanged (Entry.balance_entry id) w w' = lookup id w'.stream_balance ≡ lookup id w.stream_balance
  Unchanged (Entry.token_entry id) w w' = lookup id w'.stream_token ≡ lookup id w.stream_token
  Unchanged (Entry.total_entry a) w w' = lookup a w'.total_locked ≡ lookup a w.total_locked

  Unchanged-refl : (e : Entry) (w : World T) → Unchanged e w w
  Unchanged-refl Entry.instance_entry w = (refl, refl)
  Unchanged-refl (Entry.balance_entry id) w = refl
  Unchanged-refl (Entry.token_entry id) w = refl
  Unchanged-refl (Entry.total_entry a) w = refl

-- An entry is the same after a call, or lives for `ledger_threshold` ledgers.
abbrev Lasts : {T : Type 0} → ℕ → World T → World T → Lifetimes Entry → Entry → Type 0
Lasts now w w' l e = Unchanged e w w' ⊎ LivesOn now ledger_threshold e l

module _ (keeper : Keeper) (law : IsKeeper keeper) where
  same_entry_refl : (e : Entry) → same_entry e e ≡ true
  same_entry_refl Entry.instance_entry = refl
  same_entry_refl (Entry.balance_entry id) = ==-refl id
  same_entry_refl (Entry.token_entry id) = ==-refl id
  same_entry_refl (Entry.total_entry a) = ==-refl a

  kept-LivesOn :
      (env : Env) (e : Entry) (l : Lifetimes Entry)
      → LivesOn env.sequence ledger_threshold e (kept keeper env e l)
  kept-LivesOn env e l =
      kept_alive-LivesOn same_entry keeper law env.sequence _ _ e l (omega arith)
        (same_entry_refl e)

  kept_stays :
      (env : Env) (e x : Entry) (l : Lifetimes Entry)
      → LivesOn env.sequence ledger_threshold x l
      → LivesOn env.sequence ledger_threshold x (kept keeper env e l)
  kept_stays env e x l = kept_alive_stays same_entry keeper law env.sequence _ _ _ e x l

  -- What both a deposit and a payout write last.
  booked-LivesOn :
      (env : Env) (token : Address) (id : ℕ) (l : Lifetimes Entry)
      → LivesOn env.sequence ledger_threshold
          (Entry.balance_entry id)
          (Writes.authorize_and_pay keeper env token id l)
  booked-LivesOn env token id l =
      kept_stays env (Entry.total_entry token) (Entry.balance_entry id)
        (Writes.set_stream_balance keeper env id l) (kept-LivesOn env (Entry.balance_entry id) l)

  -- A call that writes the balance of one stream and the total of one token.
  booked-Lasts :
      {T : Type 0} (env : Env) (token : Address) (id : ℕ) (b n : ℤ) (w w' : World T)
      (l : Lifetimes Entry) (e : Entry)
      → Unchanged Entry.instance_entry w w'
      → w'.stream_balance ≡ insert id b w.stream_balance
      → w'.total_locked ≡ insert token n w.total_locked
      → ((i : ℕ)
          → Lasts env.sequence w w'
              (Writes.authorize_and_pay keeper env token id l)
              (Entry.token_entry i))
      → Lasts env.sequence w w' (Writes.authorize_and_pay keeper env token id l) e
  booked-Lasts env token id b n w w' l Entry.instance_entry same p q r = inl same
  booked-Lasts env token id b n w w' l (Entry.balance_entry i) same p q r =
      inserted env.sequence ledger_threshold id i b w.stream_balance w'.stream_balance
        Entry.balance_entry (Writes.authorize_and_pay keeper env token id l) p
        (booked-LivesOn env token id l)
  booked-Lasts env token id b n w w' l (Entry.token_entry i) same p q r = r i
  booked-Lasts env token id b n w w' l (Entry.total_entry a) same p q r =
      inserted env.sequence ledger_threshold token a n w.total_locked w'.total_locked
        Entry.total_entry (Writes.authorize_and_pay keeper env token id l) q
        (kept-LivesOn env (Entry.total_entry token) (Writes.set_stream_balance keeper env id l))

  -- A call that writes the settings.
  settings-Lasts :
      {T : Type 0} (now : ℕ) (w w' : World T) (l : Lifetimes Entry) (e : Entry)
      → w'.stream_balance ≡ w.stream_balance
      → w'.stream_token ≡ w.stream_token
      → w'.total_locked ≡ w.total_locked
      → LivesOn now ledger_threshold Entry.instance_entry l
      → Lasts now w w' l e
  settings-Lasts now w w' l Entry.instance_entry a b c alive = inr alive
  settings-Lasts now w w' l (Entry.balance_entry id) a b c alive = inl (rw a refl)
  settings-Lasts now w w' l (Entry.token_entry id) a b c alive = inl (rw b refl)
  settings-Lasts now w w' l (Entry.total_entry id) a b c alive = inl (rw c refl)

module _ {T : Type 0} (client : TokenClient T) (keeper : Keeper) (law : IsKeeper keeper) where
  deposit-Lasts :
      (env : Env) (from token : Address) (amount : ℤ) (id : ℕ) (w w' : World T)
      (l : Lifetimes Entry) (e : Entry)
      → deposit client env from token amount id w ≡ ok (tt, w')
      → Lasts env.sequence w w' (Writes.deposit keeper env token id (lookup id w.stream_token) l) e
  deposit-Lasts env from token amount id w w' l e run =
      let d = deposit_ok client env from token amount id w w' run in
      elim (Option-cases (lookup id w.stream_token)) [
        | inr (t, known) ↦
            let kept_token = rw known at d.token_set in
            rw known (
              booked-Lasts keeper law env token id _ _ w w' l e (d.admin_kept, d.contract_kept)
                d.balance_set d.total_set (λ i. inl (rw kept_token refl)))
        | inl unknown ↦
            let new_token = rw unknown at d.token_set in
            let l' = Writes.set_stream_token keeper env id l in
            rw unknown (
              booked-Lasts keeper law env token id _ _ w w' l' e (d.admin_kept, d.contract_kept)
                d.balance_set d.total_set
                (λ i.
                  inserted env.sequence ledger_threshold id i token w.stream_token w'.stream_token
                    Entry.token_entry (Writes.authorize_and_pay keeper env token id l') new_token
                    (kept_stays keeper law env (Entry.total_entry token) (Entry.token_entry id)
                      (Writes.set_stream_balance keeper env id l')
                      (kept_stays keeper law env (Entry.balance_entry id) (Entry.token_entry id) l'
                        (kept-LivesOn keeper law env (Entry.token_entry id) l)))))
      ]

  payout-Lasts :
      (env : Env) (caller to token : Address) (amount : ℤ) (id : ℕ) (kind : PayoutKind)
      (w w' : World T) (l : Lifetimes Entry) (e : Entry)
      → authorize_and_pay client env caller to token amount id kind w ≡ ok (tt, w')
      → Lasts env.sequence w w' (Writes.authorize_and_pay keeper env token id l) e
  payout-Lasts env caller to token amount id kind w w' l e run =
      let d = authorize_and_pay_ok client env caller to token amount id kind w w' run in
      booked-Lasts keeper law env token id _ _ w w' l e (d.admin_kept, d.contract_kept)
        d.balance_set d.total_set (λ i. inl (rw d.token_kept refl))

  success-Lasts :
      (env : Env) (c : Call) (w w' : World T) (l : Lifetimes Entry) (e : Entry)
      → invoke client env c w ≡ ok (tt, w')
      → Lasts env.sequence w w' (writes client keeper env c w l) e
  unfolding invoke initialize set_stream_contract release refund
  success-Lasts env (Call.initialize admin contract) w w' l e run =
      settings-Lasts keeper law env.sequence w w'
        (Writes.set_stream_contract keeper env (Writes.set_admin keeper env l)) e (ground arith)
        (ground arith) (ground arith)
        (kept-LivesOn keeper law env Entry.instance_entry (Writes.set_admin keeper env l))
  success-Lasts env (Call.set_stream_contract admin contract) w w' l e run =
      settings-Lasts keeper law env.sequence w w' (Writes.set_stream_contract keeper env l) e
        (ground arith) (ground arith) (ground arith)
        (kept-LivesOn keeper law env Entry.instance_entry l)
  success-Lasts env (Call.deposit from token amount id) w w' l e run =
      deposit-Lasts env from token amount id w w' l e run
  success-Lasts env (Call.release caller to token amount id) w w' l e run =
      payout-Lasts env caller to token amount id PayoutKind.release w w' l e run
  success-Lasts env (Call.refund caller to token amount id) w w' l e run =
      payout-Lasts env caller to token amount id PayoutKind.refund w w' l e run

  -- Over a host that keeps entries alive as it is asked to: after any call of the vault each ledger
  -- entry is the same as before, or it lives for 120,960 ledgers at least.
  pub changed_accounts-Lasts :
      (env : Env) (c : Call) (e : Entry) (w : World T) (l : Lifetimes Entry)
      → let w' = commit w (invoke client env c w) in
        Unchanged e w w'
        ⊎ LivesOn env.sequence ledger_threshold e (lifetimes client keeper env c w l)
  unfolding lifetimes
  changed_accounts-Lasts env c e w l =
      settled_elim (λ w' l'. Lasts env.sequence w w' l' e) w l (writes client keeper env c w l)
        (invoke client env c w) (inl (Unchanged-refl e w))
        (λ w' run. success-Lasts env c w w' l e run)

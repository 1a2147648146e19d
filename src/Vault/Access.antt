-- ===== src/Vault/Access.antt =====
-- Who can move the vault's funds and change its configuration.
use stellar_stream_hive_cont.Base.{ℕ, ◌≡◌, refl, ◌⊎◌, inl, inr, true, Option, none, some, arith}
use stellar_stream_hive_cont.Base.Int.{◌<ℤ◌, int_laws}
use stellar_stream_hive_cont.Host.{Env, Address, ok, commit, commit_elim}
use stellar_stream_hive_cont.Host.Token.{TokenClient}
use stellar_stream_hive_cont.Vault.Types.{PayoutKind}
use stellar_stream_hive_cont.Vault.Storage.{World, get_stream_balance}
use stellar_stream_hive_cont.Vault.Contract.{initialize, set_stream_contract, release, refund}
use stellar_stream_hive_cont.Vault.Effects.{balance-insert, deposit_ok, authorize_and_pay_ok}
use stellar_stream_hive_cont.Vault.Steps.{Call, invoke}

-- The address in whose name a call asks for a payout.
abbrev pub payer : Call → Option Address
payer (Call.release caller to token amount id) = some caller
payer (Call.refund caller to token amount id) = some caller
payer _ = none

module _ {T : Type 0} (client : TokenClient T) where
  abbrev Trusted : Env → Call → World T → Type 0
  Trusted env c w =
      (caller : Address) × (payer c ≡ some caller)
      × (w.stream_contract ≡ some caller)
      × (env.authorizes caller ≡ true)

  success_falls-Trusted :
      (env : Env) (c : Call) (id : ℕ) (w w' : World T)
      → invoke client env c w ≡ ok (tt, w')
      → get_stream_balance id w' <ℤ get_stream_balance id w
      → Trusted env c w
  unfolding invoke initialize set_stream_contract release refund
  success_falls-Trusted env (Call.initialize admin contract) id w w' h less = absurd (ground arith)
  success_falls-Trusted env (Call.set_stream_contract admin contract) id w w' h less =
      absurd (ground arith)
  success_falls-Trusted env (Call.deposit from token amount i) id w w' h less =
      let d = deposit_ok client env from token amount i w w' h in
      let p = d.positive in
      let b = balance-insert id i _ w w' d.balance_set in absurd (grind (int_laws, b, p))
  success_falls-Trusted env (Call.release caller to token amount i) id w w' h less =
      let d = authorize_and_pay_ok client env caller to token amount i PayoutKind.release w w' h in
      (caller, refl, d.trusted, d.signed)
  success_falls-Trusted env (Call.refund caller to token amount i) id w w' h less =
      let d = authorize_and_pay_ok client env caller to token amount i PayoutKind.refund w w' h in
      (caller, refl, d.trusted, d.signed)

  -- A call after which a stream's balance is lower than before is a release or a refund in the name
  -- of the configured stream contract, and that contract has authorized it.
  pub balance_falls-Trusted :
      (env : Env) (c : Call) (id : ℕ) (w : World T)
      → get_stream_balance id (commit w (invoke client env c w)) <ℤ get_stream_balance id w
      → (caller : Address) × (payer c ≡ some caller)
        × (w.stream_contract ≡ some caller)
        × (env.authorizes caller ≡ true)
  balance_falls-Trusted env c id w =
      commit_elim (λ w'. get_stream_balance id w' <ℤ get_stream_balance id w → Trusted env c w) w
        (invoke client env c w) (λ h. absurd (omega arith)) (success_falls-Trusted env c id w)

  -- What a success may have changed of the configuration.
  abbrev Configured : Env → World T → World T → Type 0
  Configured env w w' =
      ((w'.admin ≡ w.admin) × (w'.stream_contract ≡ w.stream_contract))
      ⊎ ((w.admin ≡ none) × ((a : Address) × (w'.admin ≡ some a) × (env.authorizes a ≡ true)))
      ⊎ ((w'.admin ≡ w.admin) × ((a : Address) × (w.admin ≡ some a) × (env.authorizes a ≡ true)))

  success-Configured :
      (env : Env) (c : Call) (w w' : World T)
      → invoke client env c w ≡ ok (tt, w')
      → Configured env w w'
  unfolding invoke initialize set_stream_contract release refund
  success-Configured env (Call.initialize admin contract) w w' h =
      inr (inl (ground arith, (admin, ground arith, ground arith)))
  success-Configured env (Call.set_stream_contract admin contract) w w' h =
      inr (inr (ground arith, (admin, ground arith, ground arith)))
  success-Configured env (Call.deposit from token amount i) w w' h =
      let d = deposit_ok client env from token amount i w w' h in
      inl (d.admin_kept, d.contract_kept)
  success-Configured env (Call.release caller to token amount i) w w' h =
      let d = authorize_and_pay_ok client env caller to token amount i PayoutKind.release w w' h in
      inl (d.admin_kept, d.contract_kept)
  success-Configured env (Call.refund caller to token amount i) w w' h =
      let d = authorize_and_pay_ok client env caller to token amount i PayoutKind.refund w w' h in
      inl (d.admin_kept, d.contract_kept)

  -- Any call keeps the admin and the configured stream contract, or sets an admin that has
  -- authorized it where there was none, or keeps the admin, who has authorized it.
  pub invoke-Configured :
      (env : Env) (c : Call) (w : World T)
      → let w' = commit w (invoke client env c w) in
        ((w'.admin ≡ w.admin) × (w'.stream_contract ≡ w.stream_contract))
        ⊎ ((w.admin ≡ none) × ((a : Address) × (w'.admin ≡ some a) × (env.authorizes a ≡ true)))
        ⊎ ((w'.admin ≡ w.admin) × ((a : Address) × (w.admin ≡ some a) × (env.authorizes a ≡ true)))
  invoke-Configured env c w =
      commit_elim (Configured env w) w (invoke client env c w) (inl (refl, refl))
        (success-Configured env c w)

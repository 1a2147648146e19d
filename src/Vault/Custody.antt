-- ===== src/Vault/Custody.antt =====
-- The vault holds what its accounts say: the accounts add up, and the vault's own token balance
-- covers the total of every token, in every state that it can reach.
use stellar_stream_hive_cont.Base.{
  ℕ, ◌≡◌, refl, inl, inr, true, false, some, ◌==◌, ==→eq, ==-refl, arith, Bool-cases, if◌then◌else◌,
}
use stellar_stream_hive_cont.Base.Int.{ℤ, pos, ◌+ℤ◌, ◌-ℤ◌, ◌≤ℤ◌, int_laws, parts_of_eq}
use stellar_stream_hive_cont.Base.Dict.{lookup, lookup-insert, unwrap_or}
use stellar_stream_hive_cont.Host.{Env, Address, ok, commit_elim}
use stellar_stream_hive_cont.Host.Token.{TokenClient, IsToken}
use stellar_stream_hive_cont.Vault.Types.{PayoutKind}
use stellar_stream_hive_cont.Vault.Storage.{World, get_total_locked}
use stellar_stream_hive_cont.Vault.Contract.{
  initialize, set_stream_contract, deposit, release, refund, authorize_and_pay,
}
use stellar_stream_hive_cont.Vault.Effects.{deposit_ok, authorize_and_pay_ok}
use stellar_stream_hive_cont.Vault.Invariant.{
  IsAccounted, deposit-IsAccounted, authorize_and_pay-IsAccounted,
}
use stellar_stream_hive_cont.Vault.Steps.{
  Call, invoke, Step, call, elsewhere, Reachable, start, next,
}

module _ {T : Type 0} (client : TokenClient T) (self : Address) where
  -- The tokens that the vault holds cover what it owes.
  pub record IsCustodian (w : World T) : Type 0 where
    pub accounted : IsAccounted w
    pub covered : (token : Address) → get_total_locked token w ≤ℤ client.balance token self w.tokens

module _ {T : Type 0} (client : TokenClient T) (law : IsToken client) (self : Address) where
  pub deposit-IsCustodian :
      (env : Env) (from token : Address) (amount : ℤ) (stream_id : ℕ) (w w' : World T)
      → env.current_contract ≡ self
      → env.authorizes self ≡ false
      → IsCustodian client self w
      → deposit client env from token amount stream_id w ≡ ok (tt, w')
      → IsCustodian client self w'
  deposit-IsCustodian env from token amount id w w' here mute v h =
      let d = deposit_ok client env from token amount id w w' h in
      record {
        accounted = deposit-IsAccounted client env from token amount id w w' v.accounted h;
        covered = λ t.
            rw (d.total_set, lookup-insert t token _ w.total_locked)
              (received t d.paid (other_party from d.signed));
      }
    where
      other_party : (a : Address) → env.authorizes a ≡ true → (self == a) ≡ false
      other_party a s = elim (Bool-cases (self == a)) [
        | inl same ↦ let q = rw (==→eq self a same) at mute in cc
        | inr apart ↦ apart
      ]

      received :
          (t : Address)
          → client.transfer env token from env.current_contract amount w.tokens ≡ some w'.tokens
          → (self == from) ≡ false
          → unwrap_or
              (if t == token
                then some (get_total_locked token w +ℤ amount)
                else lookup t w.total_locked)
              (pos 0)
            ≤ℤ client.balance t self w'.tokens
      received t paid apart =
          let m =
            rw (here, apart, ==-refl self) at
              (law.transfer_moves env token from _ amount w.tokens w'.tokens paid t self) in
          elim (Bool-cases (t == token)) [
            | inl same ↦
                let q = ==→eq t token same in
                let m' = rw q at (rw same at m) in
                rw same (rw q (omega (int_laws, parts_of_eq m', v.covered token)))
            | inr other ↦
                let m' = rw (other) at m in rw other (omega (int_laws, parts_of_eq m', v.covered t))
          ]

  pub payout-IsCustodian :
      (env : Env) (caller to token : Address) (amount : ℤ) (stream_id : ℕ) (kind : PayoutKind)
      (w w' : World T)
      → env.current_contract ≡ self
      → IsCustodian client self w
      → authorize_and_pay client env caller to token amount stream_id kind w ≡ ok (tt, w')
      → IsCustodian client self w'
  payout-IsCustodian env caller to token amount id kind w w' here v h =
      let d = authorize_and_pay_ok client env caller to token amount id kind w w' h in
      record {
        accounted =
            authorize_and_pay-IsAccounted client env caller to token amount id kind w w' v.accounted
              h;
        covered = λ t.
            rw (d.total_set, lookup-insert t token _ w.total_locked) (sent t d.paid d.positive);
      }
    where
      sent :
          (t : Address)
          → client.transfer env token env.current_contract to amount w.tokens ≡ some w'.tokens
          → pos 1 ≤ℤ amount
          → unwrap_or
              (if t == token
                then some (get_total_locked token w -ℤ amount)
                else lookup t w.total_locked)
              (pos 0)
            ≤ℤ client.balance t self w'.tokens
      sent t paid p =
          let m =
            rw (here, ==-refl self) at
              (law.transfer_moves env token _ to amount w.tokens w'.tokens paid t self) in
          elim (Bool-cases (t == token)) [
            | inl same ↦
                let q = ==→eq t token same in
                let m' = rw q at (rw same at m) in
                rw same (
                  rw q (elim (Bool-cases (self == to)) [
                    | inl home ↦
                        let m'' = rw home at m' in
                        omega (int_laws, parts_of_eq m'', v.covered token)
                    | inr away ↦
                        let m'' = rw away at m' in
                        omega (int_laws, parts_of_eq m'', v.covered token)
                  ]))
            | inr other ↦
                let m' = rw (other) at m in rw other (omega (int_laws, parts_of_eq m', v.covered t))
          ]

  -- Every call of the vault keeps it a custodian.
  pub invoke-IsCustodian :
      (env : Env) (c : Call) (w w' : World T)
      → env.current_contract ≡ self
      → env.authorizes self ≡ false
      → IsCustodian client self w
      → invoke client env c w ≡ ok (tt, w')
      → IsCustodian client self w'
  unfolding invoke initialize set_stream_contract release refund
  invoke-IsCustodian env (Call.initialize admin contract) w w' here mute v h = ground (arith, v)
  invoke-IsCustodian env (Call.set_stream_contract admin contract) w w' here mute v h =
      ground (arith, v)
  invoke-IsCustodian env (Call.deposit from token amount id) w w' here mute v h =
      deposit-IsCustodian env from token amount id w w' here mute v h
  invoke-IsCustodian env (Call.release caller to token amount id) w w' here mute v h =
      payout-IsCustodian env caller to token amount id PayoutKind.release w w' here v h
  invoke-IsCustodian env (Call.refund caller to token amount id) w w' here mute v h =
      payout-IsCustodian env caller to token amount id PayoutKind.refund w w' here v h

  pub Step-IsCustodian :
      {w w' : World T}
      → Step client self w w'
      → IsCustodian client self w
      → IsCustodian client self w'
  Step-IsCustodian {w} (call env c here mute) v =
      commit_elim (IsCustodian client self) w (invoke client env c w) v
        (λ w' h. invoke-IsCustodian env c w w' here mute v h)
  Step-IsCustodian (elsewhere t grows) v = record {
    accounted = v.accounted;
    covered = λ a. omega (arith, v.covered a, grows a);
  }

  -- Over a token contract whose transfers move the amount, whatever calls are made of a vault, by
  -- whom and in which order, as long as the vault itself has authorized none and whatever else
  -- happens to the tokens lowers none of its balances, starting at its deployment with none of its
  -- token balances below 0: no stream balance is negative, a stream with a balance has its token
  -- fixed, the total of each token is the sum of the balances of its streams and an i128, and the
  -- vault's account with the token contract covers that total.
  pub Reachable-IsCustodian :
      (t : T) (w : World T)
      → ((token : Address) → pos 0 ≤ℤ client.balance token self t)
      → Reachable client self t w
      → IsCustodian client self w
  Reachable-IsCustodian t _ h start = record {
    accounted = record {
      nonneg = tt;
      funded = λ _ _. refl;
      summed = λ _. refl;
      bounded = λ _. omega arith;
    };
    covered = h;
  }
  Reachable-IsCustodian t w h (next r s) = Step-IsCustodian s (Reachable-IsCustodian t _ h r)

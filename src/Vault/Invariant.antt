-- ===== src/Vault/Invariant.antt =====
-- The invariant of the vault's accounts, and that every operation keeps it.
use stellar_stream_hive_cont.Base.{
  ℕ, ◌≡◌, sym, inl, inr, ◌∙◌, none, some, arith, ◌==◌, Bool-cases, ==→eq, ==-refl, ==-false_comm,
}
use stellar_stream_hive_cont.Base.Int.{
  ℤ, pos, ◌+ℤ◌, ◌-ℤ◌, ◌≤ℤ◌, i128_max, int_laws, parts_of_eq, eq_of_parts,
}
use stellar_stream_hive_cont.Base.Dict.{Dict, lookup, insert, lookup-insert, unwrap_or}
use stellar_stream_hive_cont.Host.{Env, Address, ok}
use stellar_stream_hive_cont.Host.Token.{TokenClient}
use stellar_stream_hive_cont.Vault.Types.{PayoutKind}
use stellar_stream_hive_cont.Vault.Storage.{World, get_stream_balance}
use stellar_stream_hive_cont.Vault.Contract.{deposit, authorize_and_pay}
use stellar_stream_hive_cont.Vault.Effects.{deposit_ok, authorize_and_pay_ok}
use stellar_stream_hive_cont.Vault.Accounting.{
  locked_sum, locked_sum-insert, locked_sum-new_token, AllNonneg, lookup-nonneg, insert-AllNonneg,
}

-- No balance is negative, a stream with a balance has its token fixed, and the total of each token
-- is the sum of the balances of its streams and an i128.
pub record Accounts (balances : Dict ℤ) (tokens : Dict Address) (totals : Dict ℤ) : Type 0 where
  pub nonneg : AllNonneg balances
  pub funded : (id : ℕ) → lookup id tokens ≡ none → lookup id balances ≡ none
  pub summed : (t : Address) → unwrap_or (lookup t totals) (pos 0) ≡ locked_sum tokens t balances
  pub bounded : (t : Address) → unwrap_or (lookup t totals) (pos 0) ≤ℤ pos i128_max

abbrev pub IsAccounted : {T : Type 0} → World T → Type 0
IsAccounted w = Accounts w.stream_balance w.stream_token w.total_locked

-- A balance and the total of its token that move by the same amount stay in step.
totals-insert :
    (tokens : Dict Address) (totals : Dict ℤ) (d : Dict ℤ) (id : ℕ) (token : Address) (b n : ℤ)
    (t : Address)
    → lookup id tokens ≡ some token
    → ((a : Address) → unwrap_or (lookup a totals) (pos 0) ≡ locked_sum tokens a d)
    → n +ℤ unwrap_or (lookup id d) (pos 0) ≡ unwrap_or (lookup token totals) (pos 0) +ℤ b
    → unwrap_or (lookup t (insert token n totals)) (pos 0) ≡ locked_sum tokens t (insert id b d)
totals-insert tokens totals d id token b n t e h move =
    let sums = locked_sum-insert tokens t id b d in
    rw (lookup-insert t token n totals) (elim (Bool-cases (t == token)) [
      | inl same ↦
          let q = ==→eq t token same in
          rw same (
            let sums' = rw (e, q, ==-refl token) at sums in
            rw q (omega (int_laws, parts_of_eq sums', parts_of_eq move, parts_of_eq (h token))))
      | inr other ↦ rw other (
          let sums' = rw (e, ==-false_comm t token other) at sums in
          h t ∙ eq_of_parts _ _ (omega (int_laws, parts_of_eq sums')))
    ])

pub move-Accounts :
    (id : ℕ) (token : Address) (b n : ℤ) (d : Dict ℤ) (tokens : Dict Address) (totals : Dict ℤ)
    → Accounts d tokens totals
    → lookup id tokens ≡ some token
    → pos 0 ≤ℤ b
    → n ≤ℤ pos i128_max
    → n +ℤ unwrap_or (lookup id d) (pos 0) ≡ unwrap_or (lookup token totals) (pos 0) +ℤ b
    → Accounts (insert id b d) tokens (insert token n totals)
move-Accounts id token b n d tokens totals v e p m move = record {
  nonneg = insert-AllNonneg id b d v.nonneg p;
  funded = λ i u. rw (lookup-insert i id b d) (ground (arith, v.funded i u));
  summed = λ t. totals-insert tokens totals d id token b n t e v.summed move;
  bounded = λ t. rw (lookup-insert t token n totals) (ground (arith, v.bounded t));
}

-- Fixing the token of a stream that had none.
fix-Accounts :
    (id : ℕ) (token : Address) (d : Dict ℤ) (tokens : Dict Address) (totals : Dict ℤ)
    → Accounts d tokens totals
    → lookup id tokens ≡ none
    → Accounts d (insert id token tokens) totals
fix-Accounts id token d tokens totals v e = record {
  nonneg = v.nonneg;
  funded = λ i u. v.funded i (ground (arith, rw (lookup-insert i id token tokens) at u));
  bounded = v.bounded;
  summed = λ t. v.summed t ∙ sym (locked_sum-new_token tokens t id token d (v.funded id e));
}

module _ {T : Type 0} (client : TokenClient T) where
  -- Every deposit that goes through keeps the accounts.
  pub deposit-IsAccounted :
      (env : Env) (from token : Address) (amount : ℤ) (stream_id : ℕ) (w w' : World T)
      → IsAccounted w
      → deposit client env from token amount stream_id w ≡ ok (tt, w')
      → IsAccounted w'
  deposit-IsAccounted env from token amount id w w' v h =
      let d = deposit_ok client env from token amount id w w' h in
      rw (d.balance_set, d.total_set)
        (elim d.token_fits [
          | inl fresh ↦
              rw (d.token_set, fresh)
                (move-Accounts id token _ _ _ _ _ (fix-Accounts id token _ _ _ v fresh)
                  (rw (lookup-insert id id token w.stream_token, ==-refl id)) (added d.positive)
                  (omega (arith, d.total_fits)) (omega int_laws))
          | inr known ↦
              rw (d.token_set, known)
                (move-Accounts id token _ _ _ _ _ v known (added d.positive)
                  (omega (arith, d.total_fits)) (omega int_laws))
        ])
    where
      added : pos 1 ≤ℤ amount → pos 0 ≤ℤ get_stream_balance id w +ℤ amount
      added p = omega (int_laws, lookup-nonneg id w.stream_balance v.nonneg)

  -- Every payout that goes through keeps the accounts.
  pub authorize_and_pay-IsAccounted :
      (env : Env) (caller to token : Address) (amount : ℤ) (stream_id : ℕ) (kind : PayoutKind)
      (w w' : World T)
      → IsAccounted w
      → authorize_and_pay client env caller to token amount stream_id kind w ≡ ok (tt, w')
      → IsAccounted w'
  authorize_and_pay-IsAccounted env caller to token amount id kind w w' v h =
      let d = authorize_and_pay_ok client env caller to token amount id kind w w' h in
      rw (d.balance_set, d.total_set, d.token_kept)
        (elim d.token_fits [
          | inl fresh ↦ absurd (unfunded fresh d.positive d.covered)
          | inr known ↦
              move-Accounts id token _ _ _ _ _ v known (left d.covered)
                (omega (arith, d.total_fits)) (omega int_laws)
        ])
    where
      unfunded :
          lookup id w.stream_token ≡ none → pos 1 ≤ℤ amount → amount ≤ℤ get_stream_balance id w → ⊥
      unfunded fresh p c = let q = rw (v.funded id fresh) at c in omega arith

      left : amount ≤ℤ get_stream_balance id w → pos 0 ≤ℤ get_stream_balance id w -ℤ amount
      left c = omega int_laws

-- ===== src/Vault/Simulation.antt =====
-- What a call of the vault that goes through does to its book (contracts/vault/src/lib.rs).
use stellar_stream_hive_cont.Base.{
  ℕ, ◌+◌, ◌-◌, ◌≡◌, refl, ◌∙◌, sym, ap, inl, inr, true, not, ◌&&◌, some, ◌==◌, arith, Bool-cases,
}
use stellar_stream_hive_cont.Base.Int.{
  ℤ, pos, pos_part, ◌+ℤ◌, ◌-ℤ◌, ◌≤ℤ◌, int_laws, parts_apart, +ℤ_nonneg,
}
use stellar_stream_hive_cont.Base.Dict.{insert, lookup-insert, is_some}
use stellar_stream_hive_cont.Host.{Env, Address, ok}
use stellar_stream_hive_cont.Host.Token.{TokenClient}
use stellar_stream_hive_cont.Vault.Types.{PayoutKind}
use stellar_stream_hive_cont.Vault.Storage.{World, get_stream_balance}
use stellar_stream_hive_cont.Vault.Contract.{
  initialize, set_stream_contract, deposit, authorize_and_pay, release, refund,
}
use stellar_stream_hive_cont.Vault.Effects.{balance-insert, deposit_ok, authorize_and_pay_ok}
use stellar_stream_hive_cont.Vault.Accounting.{lookup-nonneg}
use stellar_stream_hive_cont.Vault.Invariant.{IsAccounted}
use stellar_stream_hive_cont.Vault.Steps.{Call, invoke}
use stellar_stream_hive_cont.Vault.Book.{Book, book, enter, receive, pay, set_at, holds}

-- Books with the same entries are the same.
Book_ext :
    (b c : Book)
    → b.admin ≡ c.admin
    → b.trusted ≡ c.trusted
    → ((i : ℕ) → b.token i ≡ c.token i)
    → ((i : ℕ) → b.funds i ≡ c.funds i)
    → b ≡ c
Book_ext b c a t k f =
    λ j. record { admin = a j; trusted = t j; token = λ i. k i j; funds = λ i. f i j }

pos_part_add : (a b : ℤ) → pos 0 ≤ℤ a → pos 0 ≤ℤ b → pos_part (a +ℤ b) ≡ pos_part a + pos_part b
pos_part_add a b h k = ap pos_part (+ℤ_nonneg a b h k)

pos_part_sub : (a b : ℤ) → pos 0 ≤ℤ b → b ≤ℤ a → pos_part (a -ℤ b) ≡ pos_part a - pos_part b
pos_part_sub a b h k = omega (int_laws, parts_apart a, parts_apart b, parts_apart (a -ℤ b))

-- The entry that a written balance makes.
posted :
    {T : Type 0} (i id n : ℕ) (b : ℤ) (w w' : World T)
    → w'.stream_balance ≡ insert id b w.stream_balance
    → pos_part b ≡ n
    → set_at id n (book w).funds i ≡ pos_part (get_stream_balance i w')
posted i id n b w w' e q =
    rw (balance-insert i id b w w' e)
      (elim (Bool-cases (i == id)) [ inl same ↦ rw same (sym q) | inr other ↦ rw other refl ])

module _ {T : Type 0} (client : TokenClient T) where
  deposit-receive :
      (env : Env) (from token : Address) (amount : ℤ) (id : ℕ) (w w' : World T)
      → IsAccounted w
      → deposit client env from token amount id w ≡ ok (tt, w')
      → receive env from token amount id (book w) ≡ some (book w')
  deposit-receive env from token amount id w w' v run =
      let d = deposit_ok client env from token amount id w w' run in
      let low = lookup-nonneg id w.stream_balance v.nonneg in
      let guards : receive env from token amount id (book w)
          ≡ some (record (book w) {
            token = set_at id (some token) (book w).token;
            funds = set_at id ((book w).funds id + pos_part amount) (book w).funds;
          }) =
        ground (arith, d.positive, d.signed, d.token_fits) in
      guards
      ∙ ap some (
          Book_ext _ _ (sym d.admin_kept) (sym d.contract_kept)
            (λ i.
              rw d.token_set
                (ground (arith, d.token_fits, lookup-insert i id token w.stream_token)))
            (λ i.
              posted i id _ _ w w' d.balance_set
                (pos_part_add _ amount low (omega (arith, d.positive)))))

  payout-pay :
      (env : Env) (caller to token : Address) (amount : ℤ) (id : ℕ) (kind : PayoutKind)
      (w w' : World T)
      → IsAccounted w
      → authorize_and_pay client env caller to token amount id kind w ≡ ok (tt, w')
      → pay env caller token amount id (book w) ≡ some (book w')
  payout-pay env caller to token amount id kind w w' v run =
      let d = authorize_and_pay_ok client env caller to token amount id kind w w' run in
      let guards : pay env caller token amount id (book w)
          ≡ some (record (book w) {
            funds = set_at id ((book w).funds id - pos_part amount) (book w).funds;
          }) =
        ground (arith, d.positive, d.signed, d.token_fits, d.trusted, d.covered) in
      guards
      ∙ ap some (
          Book_ext _ _ (sym d.admin_kept) (sym d.contract_kept) (λ i. rw d.token_kept refl)
            (λ i.
              posted i id _ _ w w' d.balance_set
                (pos_part_sub _ amount (omega (arith, d.positive)) d.covered)))

  pub invoke-enter :
      (env : Env) (c : Call) (w w' : World T)
      → IsAccounted w
      → invoke client env c w ≡ ok (tt, w')
      → enter env c (book w) ≡ some (book w')
  unfolding invoke enter initialize set_stream_contract release refund
  invoke-enter env (Call.initialize admin contract) w w' v run =
      let e : w' ≡ record w { admin = some admin; stream_contract = some contract } =
        ground arith in
      let g : (not (is_some w.admin) && env.authorizes admin) ≡ true = ground arith in
      rw (e, g) refl
  invoke-enter env (Call.set_stream_contract admin contract) w w' v run =
      let (a, c) : (w'.admin ≡ w.admin) × (w'.stream_contract ≡ some contract) = ground arith in
      let (b, t) : (w'.stream_balance ≡ w.stream_balance) × (w'.stream_token ≡ w.stream_token) =
        ground arith in
      let g : (holds w.admin admin && env.authorizes admin) ≡ true = ground arith in
      rw (a, c, b, t, g) refl
  invoke-enter env (Call.deposit from token amount id) w w' v run =
      deposit-receive env from token amount id w w' v run
  invoke-enter env (Call.release caller to token amount id) w w' v run =
      payout-pay env caller to token amount id PayoutKind.release w w' v run
  invoke-enter env (Call.refund caller to token amount id) w w' v run =
      payout-pay env caller to token amount id PayoutKind.refund w w' v run

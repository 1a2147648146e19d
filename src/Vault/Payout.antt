-- ===== src/Vault/Payout.antt =====
-- What a payout answers: when it goes through, and how it is refused.
use stellar_stream_hive_cont.Base.{
  ℕ, ◌≡◌, ◌≢◌, ◌⊎◌, inl, inr, true, some, ◌∙◌, ◌==◌, ==-refl, arith, if◌then◌else◌,
}
use stellar_stream_hive_cont.Base.Int.{ℤ, pos, ◌-ℤ◌, ◌≤ℤ◌, ◌<ℤ◌, int_laws, parts_of_eq, -ℤ_IsI128}
use stellar_stream_hive_cont.Base.Dict.{lookup, lookup-insert}
use stellar_stream_hive_cont.Host.{Env, Address, ok, err, value_of}
use stellar_stream_hive_cont.Host.Token.{TokenClient}
use stellar_stream_hive_cont.Vault.Types.{
  PayoutKind, unauthorized, token_mismatch, insufficient_balance,
}
use stellar_stream_hive_cont.Vault.Storage.{World, get_stream_balance, get_total_locked}
use stellar_stream_hive_cont.Vault.Contract.{authorize_and_pay}
use stellar_stream_hive_cont.Vault.Effects.{
  balance-insert, authorize_and_pay_ok, authorize_and_pay_succeeds,
}
use stellar_stream_hive_cont.Vault.Accounting.{lookup-le-locked_sum, lookup-nonneg}
use stellar_stream_hive_cont.Vault.Invariant.{IsAccounted}

module _ {T : Type 0} (client : TokenClient T) where
  -- In a vault whose accounts add up, a payout of a positive amount up to the stream's balance, in
  -- the stream's token and authorized by the configured stream contract, goes through if the token
  -- transfer does. It lowers that stream's balance and the token's total by the amount, and changes
  -- the balance of no other stream.
  pub payout_available :
      (env : Env) (caller to token : Address) (amount : ℤ) (stream_id : ℕ) (kind : PayoutKind)
      (w : World T) (t : T)
      → IsAccounted w
      → pos 1 ≤ℤ amount
      → w.stream_contract ≡ some caller
      → env.authorizes caller ≡ true
      → lookup stream_id w.stream_token ≡ some token
      → amount ≤ℤ get_stream_balance stream_id w
      → client.transfer env token env.current_contract to amount w.tokens ≡ some t
      → (w' : World T) × (authorize_and_pay client env caller to token amount stream_id kind w
          ≡ ok (tt, w'))
        × ((i : ℕ)
            → get_stream_balance i w' ≡ (
                if i == stream_id
                then get_stream_balance i w -ℤ amount
                else get_stream_balance i w))
        × (get_total_locked token w' ≡ get_total_locked token w -ℤ amount)
  payout_available env caller to token amount id kind w t v p s a k c m =
      let le = lookup-le-locked_sum w.stream_token token id w.stream_balance v.nonneg k in
      let low = lookup-nonneg id w.stream_balance v.nonneg in
      let (w', h) =
        authorize_and_pay_succeeds client env caller to token amount id kind w t p s a (inr k) c
          (-ℤ_IsI128 _ amount (omega arith) c
            (omega (int_laws, parts_of_eq (v.summed token), v.bounded token)))
          (-ℤ_IsI128 _ amount (omega arith) (omega (int_laws, parts_of_eq (v.summed token)))
            (v.bounded token))
          m in
      let d = authorize_and_pay_ok client env caller to token amount id kind w w' h in
      (
        w',
        h,
        λ i. balance-insert i id _ w w' d.balance_set ∙ ground arith,
        rw (d.total_set, lookup-insert token token _ w.total_locked, ==-refl token),
      )

  -- A payout of a positive amount from a stream whose token is fixed, in the name of a caller who has
  -- authorized it, in a vault that is set up: if the caller is not the configured stream contract, or
  -- the token is not the stream's, or the amount exceeds the stream's balance, the payout is refused,
  -- with the error of the first of these that applies, in this order.
  pub payout_refused :
      (env : Env) (caller to token contract used : Address) (amount : ℤ) (stream_id : ℕ)
      (kind : PayoutKind) (w : World T)
      → pos 1 ≤ℤ amount
      → w.stream_contract ≡ some contract
      → env.authorizes caller ≡ true
      → lookup stream_id w.stream_token ≡ some used
      → (caller ≢ contract) ⊎ (used ≢ token) ⊎ (get_stream_balance stream_id w <ℤ amount)
      → value_of (authorize_and_pay client env caller to token amount stream_id kind w) ≡ (
          if caller == contract
          then if used == token then err insufficient_balance else err token_mismatch
          else err unauthorized)
  unfolding authorize_and_pay
  payout_refused env caller to token contract used amount id kind w p c a u (inl n) = ground arith
  payout_refused env caller to token contract used amount id kind w p c a u (inr (inl n)) =
      ground arith
  payout_refused env caller to token contract used amount id kind w p c a u (inr (inr low)) =
      ground arith

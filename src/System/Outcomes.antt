-- ===== src/System/Outcomes.antt =====
-- How withdrawals and cancellations end in the deployed system, refusals included.
use stellar_stream_hive_cont.Base.{
  ℕ, ◌<◌, ◌≤◌, ◌≡◌, ◌≢◌, ap, inl, inr, true, some, arith, Option-cases,
}
use stellar_stream_hive_cont.Base.Int.{ℤ, pos, ◌-ℤ◌, ◌≤ℤ◌, int_laws, parts_apart}
use stellar_stream_hive_cont.Base.Dict.{lookup}
use stellar_stream_hive_cont.Host.{Env, Address, ok, value_of}
use stellar_stream_hive_cont.Host.Invoke.{Invoker}
use stellar_stream_hive_cont.Host.Token.{TokenClient, IsToken}
use stellar_stream_hive_cont.Vault.Storage
use stellar_stream_hive_cont.Vault.Storage.{get_stream_balance}
use stellar_stream_hive_cont.Vault.Accounting.{balance-le-locked_sum}
use stellar_stream_hive_cont.Stream.Types.{Stream, cancelled}
use stellar_stream_hive_cont.Stream.Storage.{World}
use stellar_stream_hive_cont.Stream.Contract.{withdraw, withdraw_max, cancel_stream}
use stellar_stream_hive_cont.Stream.Accrual.{HasRoom}
use stellar_stream_hive_cont.Stream.Withdrawable.{claimable, withdrawable_amount-claimable}
use stellar_stream_hive_cont.Stream.Entitled.{entitled}
use stellar_stream_hive_cont.Stream.Solvency.{IsGood, later-IsGood, outstanding}
use stellar_stream_hive_cont.Stream.Available.{claimable-le-outstanding}
use stellar_stream_hive_cont.Stream.Cancellable.{entitled-lt}
use stellar_stream_hive_cont.Stream.Verdict.{
  withdraw_verdict, withdraw_max_verdict, cancel_verdict, withdraw-missing, withdraw_max-missing,
  cancel-missing, withdraw-found, withdraw_max-found, cancel-found,
}
use stellar_stream_hive_cont.System.Deployment.{IsDeployed, deployed_vault}
use stellar_stream_hive_cont.System.Solvency.{IsSound}
use stellar_stream_hive_cont.System.Available.{withdraw_available}
use stellar_stream_hive_cont.System.Settling.{withdrawn-le}
use stellar_stream_hive_cont.System.Cancelling.{cancel_available, outstanding_live}

module _ {T : Type 0} (client : TokenClient T) (law : IsToken client)
    (host : Invoker (Storage.World T)) (self vault : Address) (callee : Env → Env)
    (deployment : IsDeployed client host vault callee) where
  -- The tokens of the vault cover what one stream can still pay out.
  outstanding-held :
      (id now : ℕ) (s : Stream) (w : World (Storage.World T))
      → IsSound client law host self vault callee deployment now w
      → lookup id w.streams ≡ some s
      → outstanding s ≤ℤ client.balance s.token vault w.outside.tokens
  unfolding deployed_vault
  outstanding-held id now s w sound e =
      let covered = sound.solvent.streams id s e in
      let custodian = sound.safe.custodian in
      let accounts = custodian.accounted in
      let least =
        balance-le-locked_sum w.outside.stream_token s.token id w.outside.stream_balance
          covered.denominated accounts.nonneg in
      let held = rw (accounts.summed s.token) at (custodian.covered s.token) in
      omega (arith, covered.covered, least, held)

  module _ (env : Env) (now : ℕ) (w : World (Storage.World T))
      (sound : IsSound client law host self vault callee deployment now w) (h : now ≤ env.sequence)
      (here : env.current_contract ≡ self) (v : w.vault ≡ some vault)
      (c : w.outside.stream_contract ≡ some self)
      (pays : (token to : Address) (n : ℤ)
        → pos 1 ≤ℤ n
        → n ≤ℤ client.balance token vault w.outside.tokens
        → (t : T) × (client.transfer (callee env) token vault to n w.outside.tokens ≡ some t)) where
    -- What is known of a stored stream at the ledger of the call.
    now-IsGood : (id : ℕ) (s : Stream) → lookup id w.streams ≡ some s → IsGood env.sequence id s
    now-IsGood id s e =
        later-IsGood host vault (deployed_vault client host vault callee deployment) now
          env.sequence id s h (sound.solvent.streams id s e).good

    withdraw_granted :
        (s : Stream) (id : ℕ) (amount : ℤ)
        → lookup id w.streams ≡ some s
        → HasRoom s
        → env.authorizes s.recipient ≡ true
        → pos 1 ≤ℤ amount
        → amount ≤ℤ pos (claimable s env.sequence)
        → value_of (withdraw host env s.recipient id amount w) ≡ ok tt
    withdraw_granted s id amount e r a p le =
        let g = now-IsGood id s e in
        let held = outstanding-held id now s w sound e in
        let (t, paid) =
          pays s.token s.recipient amount p
            (omega (arith, le, claimable-le-outstanding s env.sequence id g, held)) in
        let through =
          withdraw_available client law host self vault callee deployment env s id now amount t w
            sound h here v c e r a p le paid in
        ap value_of through.1

    cancel_granted :
        (s : Stream) (id : ℕ)
        → lookup id w.streams ≡ some s
        → HasRoom s
        → env.authorizes s.sender ≡ true
        → s.cancellable ≡ true
        → s.status ≢ cancelled
        → env.sequence < s.end_ledger
        → value_of (cancel_stream host env s.sender id w) ≡ ok tt
    cancel_granted s id e r a k n before =
        let g = now-IsGood id s e in
        let granted = g.granted in
        let below = entitled-lt s env.sequence g.terms n before in
        let held = rw (outstanding_live s n) at (outstanding-held id now s w sound e) in
        let (t, paid) =
          pays s.token s.sender (s.total_amount -ℤ pos (entitled s env.sequence))
            (omega (int_laws, parts_apart s.total_amount))
            (omega (int_laws, parts_apart s.total_amount, parts_apart s.withdrawn)) in
        let through =
          cancel_available client law host self vault callee deployment env s id now env.sequence t
            w sound h here v c e r a k n before paid in
        ap value_of through.1

    found_end :
        (caller : Address) (id : ℕ) (amount : ℤ) (s : Stream)
        → lookup id w.streams ≡ some s
        → HasRoom s
        → (value_of (withdraw host env caller id amount w)
            ≡ withdraw_verdict env caller amount (some s))
          × (value_of (withdraw_max host env caller id w)
              ≡ withdraw_max_verdict env caller (some s))
          × (value_of (cancel_stream host env caller id w) ≡ cancel_verdict env caller (some s))
    found_end caller id amount s e r =
        let g = now-IsGood id s e in
        let le = withdrawn-le s env.sequence id g in
        let a = withdrawable_amount-claimable s env.sequence g.terms r g.taken le in
        let withdrawn_any = λ (n : ℤ).
          withdraw-found host env caller s id n w e a
            (λ signed same p q. rw (← same) (withdraw_granted s id n e r (rw same signed) p q)) in
        let terms = g.terms in
        (
          withdrawn_any amount,
          withdraw_max-found host env caller s id w e a
              (withdrawn_any (pos (claimable s env.sequence))),
          cancel-found host env caller s id w e terms.ends_later (λ signed same k n before.
              rw (← same) (cancel_granted s id e r (rw same signed) k n before)),
        )

    -- In a state of the deployed system in which `IsSound` holds, as it does in each that can be
    -- reached, with the contract and the vault set up with each other, token contracts that make each
    -- transfer out of the vault's account that its balance covers, and room for the products of the
    -- stream, if there is one: whoever calls, `withdraw`, `withdraw_max` and `cancel_stream` end
    -- exactly with the first of the documented errors that applies, with a trap where the caller has
    -- not authorized the call, or go through. No other error comes up, not from the arithmetic, the
    -- vault or the token contract.
    pub payments_end :
        (caller : Address) (id : ℕ) (amount : ℤ)
        → ((s : Stream) → lookup id w.streams ≡ some s → HasRoom s)
        → (value_of (withdraw host env caller id amount w)
            ≡ withdraw_verdict env caller amount (lookup id w.streams))
          × (value_of (withdraw_max host env caller id w)
              ≡ withdraw_max_verdict env caller (lookup id w.streams))
          × (value_of (cancel_stream host env caller id w)
              ≡ cancel_verdict env caller (lookup id w.streams))
    payments_end caller id amount r = elim (Option-cases (lookup id w.streams)) [
      | inl missing ↦ rw missing (
        withdraw-missing host env caller id amount w missing,
        withdraw_max-missing host env caller id w missing,
        cancel-missing host env caller id w missing,
      )
      | inr (s, found) ↦ rw found (found_end caller id amount s found (r s found))
    ]

-- ===== src/System/Settling.antt =====
-- What a stream that has run to its end pays out.
use stellar_stream_hive_cont.Base.{
  ℕ, ◌+◌, ◌-◌, ◌≤◌, ◌≡◌, ◌≢◌, sym, ◌∙◌, ap, ◌⊎◌, inl, inr, true, some, arith,
}
use stellar_stream_hive_cont.Base.Pages.{le-or-lt}
use stellar_stream_hive_cont.Base.Int.{
  ℤ, pos, pos_part, neg_part, ◌+ℤ◌, ◌-ℤ◌, ◌≤ℤ◌, int_laws, eq_of_parts, parts_of_eq, parts_apart,
}
use stellar_stream_hive_cont.Base.Dict.{lookup}
use stellar_stream_hive_cont.Host.{Env, Address, ok}
use stellar_stream_hive_cont.Host.Invoke.{Invoker}
use stellar_stream_hive_cont.Host.Token.{TokenClient, IsToken}
use stellar_stream_hive_cont.Vault.Storage
use stellar_stream_hive_cont.Vault.Storage.{get_stream_balance}
use stellar_stream_hive_cont.Stream.Types.{Stream, cancelled}
use stellar_stream_hive_cont.Stream.Storage.{World}
use stellar_stream_hive_cont.Stream.Contract.{withdraw, withdraw_max}
use stellar_stream_hive_cont.Stream.Math.{withdrawable_amount}
use stellar_stream_hive_cont.Stream.Accrual.{IsWellFormed, HasRoom, share, share_end}
use stellar_stream_hive_cont.Stream.Withdrawable.{claimable, withdrawable_amount-claimable}
use stellar_stream_hive_cont.Stream.Entitled.{entitled-le}
use stellar_stream_hive_cont.Stream.Solvency.{IsGood, later-IsGood}
use stellar_stream_hive_cont.System.Deployment.{IsDeployed, deployed_vault}
use stellar_stream_hive_cont.System.Solvency.{IsSound}
use stellar_stream_hive_cont.System.Available.{withdraw_available}

-- After the end of a stream that was not cancelled all that is left of the deposit is claimable.
claimable-end :
    (s : Stream) (now : ℕ)
    → IsWellFormed s
    → s.status ≢ cancelled
    → s.end_ledger ≤ now
    → pos 0 ≤ℤ s.withdrawn
    → s.withdrawn ≤ℤ s.total_amount
    → pos (claimable s now) ≡ s.total_amount -ℤ s.withdrawn
claimable-end s now v runs h p le =
    let q : claimable s now ≡ share s now - pos_part s.withdrawn = ground arith in
    ap pos q
    ∙ eq_of_parts _ _ (
        omega (
          int_laws,
          parts_of_eq (share_end s now v h),
          parts_apart s.withdrawn,
          parts_apart s.total_amount,
        ))

pub withdrawn-le : (s : Stream) (now id : ℕ) → IsGood now id s → s.withdrawn ≤ℤ s.total_amount
withdrawn-le s now id g =
    let most = entitled-le s now g.terms in
    omega (arith, g.granted, g.taken, parts_apart s.withdrawn)

-- All was withdrawn, or something is left.
all_or_left :
    (s : Stream)
    → s.withdrawn ≤ℤ s.total_amount
    → (s.withdrawn ≡ s.total_amount) ⊎ (pos 1 ≤ℤ s.total_amount -ℤ s.withdrawn)
all_or_left s le =
    elim (le-or-lt (pos_part s.total_amount + neg_part s.withdrawn)
      (pos_part s.withdrawn + neg_part s.total_amount)) [
        | inl over ↦ inl (eq_of_parts _ _ (omega (arith, le)))
        | inr more ↦ inr (omega (int_laws, le))
      ]

module _ {W : Type 0} (host : Invoker W) where
  nothing_left :
      (env : Env) (s : Stream) (id : ℕ) (w : World W)
      → lookup id w.streams ≡ some s
      → withdrawable_amount s env.sequence ≡ ok (pos 0)
      → withdraw_max host env s.recipient id w ≡ ok (pos 0, w)
  unfolding withdraw_max
  nothing_left env s id w e a = ground arith

  delegated :
      (env : Env) (s : Stream) (id : ℕ) (amount : ℤ) (w w' : World W)
      → lookup id w.streams ≡ some s
      → withdrawable_amount s env.sequence ≡ ok amount
      → pos 1 ≤ℤ amount
      → withdraw host env s.recipient id amount w ≡ ok (tt, w')
      → withdraw_max host env s.recipient id w ≡ ok (amount, w')
  unfolding withdraw_max
  delegated env s id amount w w' e a p run = ground arith

module _ {T : Type 0} (client : TokenClient T) (law : IsToken client)
    (host : Invoker (Storage.World T)) (self vault : Address) (callee : Env → Env)
    (deployment : IsDeployed client host vault callee) where
  -- In a state of the deployed system in which `IsSound` holds, as it does in each that can be
  -- reached: once a stream that was not cancelled has ended, `withdraw_max` by its recipient, who has
  -- authorized it, goes through, if the contract and the vault are set up with each other, the stream
  -- has room for its products and the token contract makes the transfer, where anything is left. It
  -- answers all that was left of the deposit, the stream is recorded as withdrawn in full and changed
  -- in nothing else, and the vault's balance of it falls by what was left.
  pub paid_in_full :
      (env : Env) (s : Stream) (id now : ℕ) (t : T) (w : World (Storage.World T))
      → IsSound client law host self vault callee deployment now w
      → now ≤ env.sequence
      → env.current_contract ≡ self
      → w.vault ≡ some vault
      → w.outside.stream_contract ≡ some self
      → lookup id w.streams ≡ some s
      → HasRoom s
      → s.status ≢ cancelled
      → s.end_ledger ≤ env.sequence
      → env.authorizes s.recipient ≡ true
      → (s.withdrawn ≡ s.total_amount)
        ⊎ (client.transfer
              (callee env)
              s.token
              vault
              s.recipient
              (s.total_amount -ℤ s.withdrawn)
              w.outside.tokens
            ≡ some t)
      → (w' : World (Storage.World T)) × (withdraw_max host env s.recipient id w
          ≡ ok (s.total_amount -ℤ s.withdrawn, w'))
        × (lookup id w'.streams ≡ some (record s { withdrawn = s.total_amount }))
        × (get_stream_balance id w'.outside
            ≡ get_stream_balance id w.outside -ℤ (s.total_amount -ℤ s.withdrawn))
  paid_in_full env s id now t w sound h here v c e r runs over a paid =
      let covered = sound.solvent.streams id s e in
      let g =
        later-IsGood host vault (deployed_vault client host vault callee deployment) now
          env.sequence id s h covered.good in
      let le = withdrawn-le s env.sequence id g in
      let left = claimable-end s env.sequence g.terms runs over g.taken le in
      let f : withdrawable_amount s env.sequence ≡ ok (s.total_amount -ℤ s.withdrawn) =
        withdrawable_amount-claimable s env.sequence g.terms r g.taken le ∙ ap ok left in
      let amount = s.total_amount -ℤ s.withdrawn in
      elim (all_or_left s le) [
        | inl done ↦
            let none_left : amount ≡ pos 0 = eq_of_parts _ _ (omega (int_laws, parts_of_eq done)) in
            (
              w,
              nothing_left host env s id w e (f ∙ ap ok none_left)
                  ∙ ap (λ n. ok (n, w)) (sym none_left),
              e ∙ ap (λ n. some (record s { withdrawn = n })) done,
              eq_of_parts _ _ (omega (int_laws, parts_of_eq none_left)),
            )
        | inr more ↦
            let (w', run, stored, balance) =
              withdraw_available client law host self vault callee deployment env s id now amount t
                w sound h here v c e r a more (omega (arith, parts_of_eq left))
                (elim paid [
                  | inl done ↦ absurd (omega (int_laws, more, parts_of_eq done))
                  | inr moved ↦ moved
                ]) in
            let all : s.withdrawn +ℤ amount ≡ s.total_amount = eq_of_parts _ _ (omega int_laws) in
            (
              w',
              delegated host env s id amount w w' e f more run,
              stored ∙ ap (λ n. some (record s { withdrawn = n })) all,
              balance,
            )
      ]

-- ===== src/Stream/Reach.antt =====
-- Solvency in every state that the stream contract can reach.
use stellar_stream_hive_cont.Base.{
  ℕ, ◌≤◌, ◌≡◌, refl, ◌⊎◌, inl, inr, none, some, arith, Bool-cases, Option-cases,
}
use stellar_stream_hive_cont.Base.Int.{ℤ, pos, ◌≤ℤ◌, eqb_ℤ}
use stellar_stream_hive_cont.Base.Dict.{lookup}
use stellar_stream_hive_cont.Host.{Env, Address, ok, Outcome-cases, commit_elim}
use stellar_stream_hive_cont.Host.Invoke.{Invoker}
use stellar_stream_hive_cont.Stream.Math.{withdrawable_amount}
use stellar_stream_hive_cont.Stream.Storage.{World}
use stellar_stream_hive_cont.Stream.Contract.{
  StreamAction, initialize, pause, unpause, transfer_admin, create_stream, withdraw, withdraw_max,
}
use stellar_stream_hive_cont.Stream.VaultLaws.{IsVault, KeepsTokens}
use stellar_stream_hive_cont.Stream.Solvency.{
  IsSolvent, later-IsCovered, create_stream-IsSolvent, withdraw-IsSolvent,
}
use stellar_stream_hive_cont.Stream.CancelSolvency.{cancel_stream-IsSolvent}
use stellar_stream_hive_cont.Stream.Steps.{
  Call, discard, invoke, IsAdmissible, Step, call, elsewhere, Reachable, start, next,
}

module _ {W : Type 0} (host : Invoker W) where
  -- `withdraw_max` does nothing or is the withdrawal of all that is withdrawable.
  pub withdraw_max_ok :
      (env : Env) (recipient : Address) (stream_id : ℕ) (amount : ℤ) (w w' : World W)
      → withdraw_max host env recipient stream_id w ≡ ok (amount, w')
      → ((amount ≡ pos 0) × (w' ≡ w))
        ⊎ (withdraw host env recipient stream_id amount w ≡ ok (tt, w'))
  unfolding withdraw_max
  withdraw_max_ok env recipient id amount w w' h = elim (Option-cases (lookup id w.streams)) [
    | inl e ↦ absurd (ground arith)
    | inr (s, e) ↦ elim (Outcome-cases (withdrawable_amount s env.sequence)) [
      | inr n ↦ absurd (ground arith)
      | inl (available, f) ↦ elim (Bool-cases (eqb_ℤ available (pos 0))) [
        | inl none_left ↦ inl (ground arith, ground arith)
        | inr more ↦ elim (Outcome-cases (withdraw host env recipient id available w)) [
          | inr n ↦ absurd (ground arith)
          | inl (a, g) ↦ inr (ground arith)
        ]
      ]
    ]
  ]

-- A call whose value is dropped.
pub discard_ok :
    {W A : Type 0} (m : StreamAction W A) (w w' : World W)
    → discard m w ≡ ok (tt, w')
    → (a : A) × (m w ≡ ok (a, w'))
discard_ok m w w' h = elim (Outcome-cases (m w)) [
  | inl ((a, v), e) ↦ (a, ground arith)
  | inr n ↦ absurd (ground arith)
]

module _ {W : Type 0} (host : Invoker W) (vault : Address) (laws : IsVault host vault) where
  pub later-IsSolvent :
      (now later : ℕ) (w w' : World W)
      → now ≤ later
      → IsSolvent host vault laws now w
      → (w'.vault ≡ none) ⊎ (w'.vault ≡ some vault)
      → w'.streams ≡ w.streams
      → ((id : ℕ) → laws.balance id w.outside ≤ℤ laws.balance id w'.outside)
      → KeepsTokens laws.token_of w.outside w'.outside
      → IsSolvent host vault laws later w'
  later-IsSolvent now later w w' h v c e b k = record {
    configured = c;
    streams = λ id s l.
        later-IsCovered host vault laws now later id s w.outside w'.outside h (b id) k
          (v.streams id s (rw e at l));
    nonneg = λ id. omega (arith, b id, v.nonneg id);
  }

  pub same-IsSolvent :
      (now later : ℕ) (w w' : World W)
      → now ≤ later
      → IsSolvent host vault laws now w
      → (w'.vault ≡ none) ⊎ (w'.vault ≡ some vault)
      → w'.streams ≡ w.streams
      → w'.outside ≡ w.outside
      → IsSolvent host vault laws later w'
  same-IsSolvent now later w w' h v c e o =
      later-IsSolvent now later w w' h v c e (λ id. rw o (omega arith)) (rw o (λ i t l. l))

  -- Every call that goes through leaves each stream covered.
  pub invoke-IsSolvent :
      (env : Env) (c : Call) (now : ℕ) (w w' : World W)
      → now ≤ env.sequence
      → IsAdmissible vault c
      → IsSolvent host vault laws now w
      → invoke host env c w ≡ ok (tt, w')
      → IsSolvent host vault laws env.sequence w'
  unfolding invoke initialize pause unpause transfer_admin
  invoke-IsSolvent env (Call.initialize admin u) now w w' h a v e =
      same-IsSolvent now env.sequence w w' h v (ground arith) (ground arith) (ground arith)
  invoke-IsSolvent env Call.pause now w w' h a v e =
      same-IsSolvent now env.sequence w w' h v (ground (arith, v.configured)) (ground arith)
        (ground arith)
  invoke-IsSolvent env Call.unpause now w w' h a v e =
      same-IsSolvent now env.sequence w w' h v (ground (arith, v.configured)) (ground arith)
        (ground arith)
  invoke-IsSolvent env (Call.transfer_admin new_admin) now w w' h a v e =
      same-IsSolvent now env.sequence w w' h v (ground (arith, v.configured)) (ground arith)
        (ground arith)
  invoke-IsSolvent env
        (Call.create_stream sender recipient token total first last cliff cancellable) now w w' h a
        v e =
      let (id, e') =
        discard_ok
          (create_stream host env sender recipient token total first last cliff cancellable) w w'
          e in
      create_stream-IsSolvent host vault laws env sender recipient token total first last cliff
        cancellable id now w w' h a v e'
  invoke-IsSolvent env (Call.withdraw recipient id amount) now w w' h a v e =
      withdraw-IsSolvent host vault laws env recipient id amount now w w' h v e
  invoke-IsSolvent env (Call.withdraw_max recipient id) now w w' h a v e =
      let (amount, e') = discard_ok (withdraw_max host env recipient id) w w' e in
      elim (withdraw_max_ok host env recipient id amount w w' e') [
        | inl (none_left, same) ↦
            rw same (same-IsSolvent now env.sequence w w h v v.configured refl refl)
        | inr taken ↦ withdraw-IsSolvent host vault laws env recipient id amount now w w' h v taken
      ]
  invoke-IsSolvent env (Call.cancel_stream sender id) now w w' h a v e =
      cancel_stream-IsSolvent host vault laws env sender id now w w' h v e

  Step-IsSolvent :
      (now later : ℕ) (w w' : World W)
      → Step host vault laws now w later w'
      → IsSolvent host vault laws now w
      → IsSolvent host vault laws later w'
  Step-IsSolvent now _ w _ (call env c later at h a) v = rw (← at) (
      commit_elim (IsSolvent host vault laws env.sequence) w (invoke host env c w)
        (same-IsSolvent now env.sequence w w (rw at h) v v.configured refl refl)
        (λ w' e. invoke-IsSolvent env c now w w' (rw at h) a v e))
  Step-IsSolvent now _ w _ (elsewhere o later h b k) v =
      later-IsSolvent now later w (record w { outside = o }) h v v.configured refl b k

  -- Beside any vault that fulfils `IsVault`, with no stream balance below 0 when the contract is
  -- deployed, whatever admissible calls are made of the contract, by whom and at whichever later
  -- ledgers, and whatever else happens that lowers no stream's balance and changes no stream's
  -- token: each stream is stored under its id with admitted terms, its recipient has withdrawn at
  -- least 0 and at most what has been earned, the vault's balance of the stream is at least what the
  -- stream can still pay out, in the stream's token, and no stream balance is negative.
  pub Reachable-IsSolvent :
      (o : W) (now : ℕ) (w : World W)
      → ((id : ℕ) → pos 0 ≤ℤ laws.balance id o)
      → Reachable host vault laws o now w
      → IsSolvent host vault laws now w
  Reachable-IsSolvent o _ _ h (start now) = record {
    configured = inl refl;
    streams = λ id s l. absurd (ground arith);
    nonneg = h;
  }
  Reachable-IsSolvent o _ _ h (next {n} {m} {v} {w} r s) =
      Step-IsSolvent n m v w s (Reachable-IsSolvent o n v h r)

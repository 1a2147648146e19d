-- ===== src/System/Solvency.antt =====
-- The system pays what it owes, in every state that it can reach.
use stellar_stream_hive_cont.Base.{ℕ, ◌≤◌, ◌≡◌, refl, false, inl, arith}
use stellar_stream_hive_cont.Base.Int.{pos, ◌≤ℤ◌}
use stellar_stream_hive_cont.Host.{Env, Address, ok, commit_elim}
use stellar_stream_hive_cont.Host.Invoke.{Invoker}
use stellar_stream_hive_cont.Host.Token.{TokenClient, IsToken}
use stellar_stream_hive_cont.Vault.Custody.{Step-IsCustodian, Reachable-IsCustodian}
use stellar_stream_hive_cont.Vault.Storage
use stellar_stream_hive_cont.Vault.Steps
use stellar_stream_hive_cont.Stream.Storage.{World}
use stellar_stream_hive_cont.Stream.Steps.{Call, invoke, IsAdmissible}
use stellar_stream_hive_cont.Stream.Solvency.{IsSolvent, configured_is}
use stellar_stream_hive_cont.Stream.Reach.{invoke-IsSolvent, later-IsSolvent, same-IsSolvent}
use stellar_stream_hive_cont.Stream.VaultLaws.{IsVault}
use stellar_stream_hive_cont.System.Deployment.{IsDeployed, deployed_vault}
use stellar_stream_hive_cont.System.Strangers.{
  IsSafe, stranger-le, stranger-KeepsTokens, stranger-IsBound,
}
use stellar_stream_hive_cont.System.Payments.{invoke-IsSafe}
use stellar_stream_hive_cont.System.Steps.{Step, streams, vaults, tokens, Reachable, start, next}

module _ {T : Type 0} (client : TokenClient T) (law : IsToken client)
    (host : Invoker (Storage.World T)) (self vault : Address) (callee : Env → Env)
    (deployment : IsDeployed client host vault callee) where
  -- The stream contract is covered by a vault that is safe.
  pub record IsSound (now : ℕ) (w : World (Storage.World T)) : Type 0 where
    pub solvent : IsSolvent host vault (deployed_vault client host vault callee deployment) now w
    pub safe : IsSafe client self vault w.outside

  abbrev laws : IsVault host vault
  laws = deployed_vault client host vault callee deployment

  -- A call of the stream contract that goes through keeps the system sound.
  pub success-IsSound :
      (env : Env) (c : Call) (now : ℕ) (w w' : World (Storage.World T))
      → now ≤ env.sequence
      → (callee env).authorizes vault ≡ false
      → IsAdmissible vault c
      → IsSound now w
      → invoke host env c w ≡ ok (tt, w')
      → IsSound env.sequence w'
  success-IsSound env c now w w' h mute a v e = record {
    solvent = invoke-IsSolvent host vault laws env c now w w' h a v.solvent e;
    safe =
        invoke-IsSafe client law host self vault callee deployment env c w w' mute
          (λ u. configured_is host vault laws u w v.solvent.configured) e v.safe;
  }

  Step-IsSound :
      (now later : ℕ) (w w' : World (Storage.World T))
      → Step client host self vault callee now w later w'
      → IsSound now w
      → IsSound later w'
  unfolding deployed_vault
  Step-IsSound now _ w _ (streams env c later at h from mute a) v = rw (← at) (
      commit_elim (IsSound env.sequence) w (invoke host env c w)
        (record {
          solvent =
              same-IsSolvent host vault laws now env.sequence w w (rw at h) v.solvent
                v.solvent.configured refl refl;
          safe = v.safe;
        })
        (λ w' e. success-IsSound env c now w w' (rw at h) mute a v e))
  Step-IsSound now _ w _ (vaults env c later h here mute quiet t) v = record {
    solvent =
        later-IsSolvent host vault laws now later w _ h v.solvent v.solvent.configured refl
          (λ id. stranger-le client self env c w.outside id v.safe.bound mute)
          (stranger-KeepsTokens client self env c w.outside);
    safe = record {
      custodian = Step-IsCustodian client law vault (Steps.call env c here quiet) v.safe.custodian;
      bound = stranger-IsBound client self env c w.outside t v.safe.bound;
    };
  }
  Step-IsSound now _ w _ (tokens t later h b) v = record {
    solvent =
        later-IsSolvent host vault laws now later w _ h v.solvent v.solvent.configured refl
          (λ id. omega arith) (λ i a l. l);
    safe = record {
      custodian = Step-IsCustodian client law vault (Steps.elsewhere t b) v.safe.custodian;
      bound = v.safe.bound;
    };
  }

  -- The stream contract and the vault deployed together, over a token contract whose transfers
  -- move the amount, with none of the vault's token balances below 0 at first. Whatever sequence
  -- of calls anybody makes of the stream contract, which is set up with this vault and gets
  -- deposits that are i128 numbers, of direct calls anybody but the two contracts makes of the
  -- vault, whose admin never names another stream contract, and of movements of tokens that do
  -- not lower the vault's balances, with nothing authorized by the vault itself: each stream can
  -- still pay out no more than the vault's balance of it in its token, and its recipient has
  -- withdrawn no more than was earned; the vault's totals are the sums of its stream balances and
  -- covered by its tokens.
  pub Reachable-IsSound :
      (t : T) (now : ℕ) (w : World (Storage.World T))
      → ((token : Address) → pos 0 ≤ℤ client.balance token vault t)
      → Reachable client host self vault callee t now w
      → IsSound now w
  unfolding deployed_vault
  Reachable-IsSound t _ _ h (start now) = record {
    solvent = record {
      configured = inl refl;
      streams = λ id s l. absurd (ground arith);
      nonneg = λ id. omega arith;
    };
    safe = record {
      custodian = Reachable-IsCustodian client law vault t _ h Steps.start;
      bound = inl refl;
    };
  }
  Reachable-IsSound t _ _ h (next {n} {m} {v} {w} r s) =
      Step-IsSound n m v w s (Reachable-IsSound t n v h r)

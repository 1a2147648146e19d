-- ===== src/System/Blocked.antt =====
-- A deposit that was made for the next stream's id decides on that stream's token.
use stellar_stream_hive_cont.Base.{ℕ, ◌+◌, ◌≡◌, ◌≢◌, refl, Bool, some, arith}
use stellar_stream_hive_cont.Base.Int.{ℤ}
use stellar_stream_hive_cont.Base.Dict.{lookup}
use stellar_stream_hive_cont.Host.{Env, Address, ok, commit, commit_elim}
use stellar_stream_hive_cont.Host.Invoke.{Invoker}
use stellar_stream_hive_cont.Host.Token.{TokenClient}
use stellar_stream_hive_cont.Vault.Storage
use stellar_stream_hive_cont.Vault.Effects.{deposit_ok}
use stellar_stream_hive_cont.Stream.Storage.{World, current_id}
use stellar_stream_hive_cont.Stream.Contract.{create_stream}
use stellar_stream_hive_cont.Stream.Effects.{create_stream_ok}
use stellar_stream_hive_cont.Stream.Reach.{discard_ok}
use stellar_stream_hive_cont.Stream.Steps.{Call, invoke}
use stellar_stream_hive_cont.System.Deployment.{IsDeployed, finished_ok}

module _ {T : Type 0} (client : TokenClient T) (host : Invoker (Storage.World T)) (vault : Address)
    (callee : Env → Env) (deployment : IsDeployed client host vault callee) where
  -- The token of a stream that is created is the one that the vault already has for its id, if any.
  create_stream-token :
      (env : Env) (sender recipient token used : Address) (total : ℤ) (first last cliff : ℕ)
      (cancellable : Bool) (id : ℕ) (w w' : World (Storage.World T))
      → w.vault ≡ some vault
      → lookup (current_id w + 1) w.outside.stream_token ≡ some used
      → create_stream host env sender recipient token total first last cliff cancellable w
        ≡ ok (id, w')
      → used ≡ token
  create_stream-token env sender recipient token used total first last cliff cancellable id w w' v u
        h =
      let d =
        create_stream_ok host env sender recipient token total first last cliff cancellable id w w'
          h in
      let (a, e, paid) = d.funded in
      let same : a ≡ vault = ground (arith, v, e) in
      let ran = rw same at paid in
      let run =
        finished_ok _ w'.outside
          (rw (deployment.runs_deposit env sender token total id w.outside) at ran) in
      let laid = deposit_ok client (callee env) sender token total id w.outside w'.outside run in
      let known = rw (← d.fresh_id) at u in ground (arith, laid.token_fits, known)

  -- A stream contract that is set up with the vault, which has a token already for the next stream's
  -- id: no call of `create_stream` with another token, by whomever, changes the state.
  pub create_stream-blocked :
      (env : Env) (sender recipient token used : Address) (total : ℤ) (first last cliff : ℕ)
      (cancellable : Bool) (w : World (Storage.World T))
      → w.vault ≡ some vault
      → lookup (current_id w + 1) w.outside.stream_token ≡ some used
      → used ≢ token
      → commit w (
          invoke host env
            (Call.create_stream sender recipient token total first last cliff cancellable)
            w)
        ≡ w
  unfolding invoke
  create_stream-blocked env sender recipient token used total first last cliff cancellable w v u n =
      commit_elim (λ w'. w' ≡ w) w
        (invoke host env
          (Call.create_stream sender recipient token total first last cliff cancellable) w)
        refl
        (λ w' h.
          let (id, e) =
            discard_ok
              (create_stream host env sender recipient token total first last cliff cancellable) w
              w' h in
          absurd (
            n (
              create_stream-token env sender recipient token used total first last cliff cancellable
                id w w' v u e)))

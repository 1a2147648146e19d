-- ===== src/Registry/Late.antt =====
-- What a setup does to a registry in which streams are registered already: `register_stream` of
-- contracts/registry/src/lib.rs does not ask for one, and `initialize` sets the statistics to 0.
use stellar_stream_hive_cont.Base.{ℕ, ◌+◌, ◌≡◌, refl, none, some, true, arith}
use stellar_stream_hive_cont.Host.{Env, Address, ok, commit, commit_elim}
use stellar_stream_hive_cont.Registry.Storage.{World, get_stats, no_stats}
use stellar_stream_hive_cont.Registry.Contract.{initialize, stream_count}
use stellar_stream_hive_cont.Registry.Effects.{register_stream_ok, update_stream_ok, initialize_ok}
use stellar_stream_hive_cont.Registry.Steps.{Call, invoke}

-- What the registry `w` can become.
pub data Later (w : World) : World → Type 0 where
  same : Later w w
  next : {v : World} → Later w v → (env : Env) (c : Call) → Later w (commit v (invoke env c v))

-- There is an admin, and `n` streams are missing from the total.
record Lacks (n : ℕ) (w : World) : Type 0 where
  pub admin : Address
  pub is_set_up : w.admin ≡ some admin
  pub lacking : (get_stats w).total_streams + n ≡ stream_count w

invoke-Lacks :
    (env : Env) (c : Call) (n : ℕ) (w w' : World)
    → invoke env c w ≡ ok (tt, w')
    → Lacks n w
    → Lacks n w'
unfolding invoke
invoke-Lacks env (Call.initialize admin) n w w' run v =
    let (unset, _, _) = initialize_ok env admin w w' run in
    let e = rw unset at v.is_set_up in absurd (ground arith)
invoke-Lacks env (Call.register_stream id sender recipient token amount) n w w' run v =
    let d = register_stream_ok env id sender recipient token amount w w' run in
    record {
      admin = v.admin;
      is_set_up = rw d.admin_kept v.is_set_up;
      lacking = rw (d.summed, d.counted) (omega (arith, v.lacking));
    }
invoke-Lacks env (Call.update_stream id withdrawn status) n w w' run v =
    let d = update_stream_ok env id withdrawn status w w' run in
    record {
      admin = v.admin;
      is_set_up = rw d.admin_kept v.is_set_up;
      lacking = rw (d.summed, d.count_kept) v.lacking;
    }

Later-Lacks : (n : ℕ) (w u : World) → Lacks n w → Later w u → Lacks n u
Later-Lacks n w _ v same = v
Later-Lacks n w _ v (next {v = u} l env c) =
    commit_elim (Lacks n) u (invoke env c u) (Later-Lacks n w u v l)
      (λ u' run. invoke-Lacks env c n u u' run (Later-Lacks n w u v l))

-- A registry that is set up, by an admin who authorizes it, only after streams have been
-- registered: in every state that follows, whatever is called, the total of streams in the
-- statistics is behind the number of registered streams by the number of those.
pub late_initialize :
    (env : Env) (admin : Address) (w u : World)
    → w.admin ≡ none
    → env.authorizes admin ≡ true
    → Later (commit w (invoke env (Call.initialize admin) w)) u
    → (get_stats u).total_streams + stream_count w ≡ stream_count u
unfolding invoke initialize
late_initialize env admin w u unset signed l =
    let v = record w { admin = some admin; stats = some no_stats } in
    let e : commit w (invoke env (Call.initialize admin) w) ≡ v = rw (unset, signed) refl in
    let start : Lacks (stream_count w) v = record {
      admin = admin;
      is_set_up = refl;
      lacking = omega arith;
    } in
    (Later-Lacks (stream_count w) v u start (rw e at l)).lacking

-- ===== src/Stream/History.antt =====
-- What may become of a stream over any number of calls.
use stellar_stream_hive_cont.Base.{ℕ, ◌≤◌, ◌≡◌, ◌⊎◌, refl, some, arith}
use stellar_stream_hive_cont.Base.Dict.{lookup}
use stellar_stream_hive_cont.Host.{commit_elim}
use stellar_stream_hive_cont.Host.Invoke.{Invoker}
use stellar_stream_hive_cont.Stream.Types.{Stream, completed, cancelled}
use stellar_stream_hive_cont.Stream.Math.{compute_status}
use stellar_stream_hive_cont.Stream.Storage.{World}
use stellar_stream_hive_cont.Stream.Steps.{invoke, Ran, Runs}
use stellar_stream_hive_cont.Stream.Listing.{IsListed, Ran-IsListed, invoke-IsListed, same-IsListed}
use stellar_stream_hive_cont.Stream.Diagram.{Follows, Follows-trans, same-Follows, final_stays}
use stellar_stream_hive_cont.Stream.Lifecycle.{Continues, invoke-Continues}

module _ {W : Type 0} (host : Invoker W) where
  Runs-later : {n : ℕ} {w : World W} {m : ℕ} {v : World W} → Runs host n w m v → n ≤ m
  Runs-later Runs.stay = omega arith
  Runs-later (Runs.call r env c later at h) = omega (arith, Runs-later r)
  Runs-later (Runs.elsewhere r o later h) = omega (arith, Runs-later r)

  -- Both at once, since the second needs the first.
  Runs-Continues :
      (id n : ℕ) (s : Stream) (w : World W)
      → IsListed w
      → lookup id w.streams ≡ some s
      → (m : ℕ) (v : World W) → Runs host n w m v
      → IsListed v × Continues id n m s v
  Runs-Continues id n s w l e _ _ Runs.stay = (l, (s, e, same-Follows s n n (omega arith)))
  Runs-Continues id n s w l e _ _ (Runs.call {m} {v} r env c later at h) =
      let (i, (x, f, p)) = Runs-Continues id n s w l e m v r in
      rw (← at) (
        commit_elim (λ u. IsListed u × Continues id n env.sequence s u) v (invoke host env c v)
          (
            i,
            (
              x,
              f,
              Follows-trans n m env.sequence s x x p (same-Follows x m env.sequence (rw at h)),
            ),
          )
          (λ u run.
            let (y, g, q) = invoke-Continues host env c id m x v u (rw at h) i f run in
            (
              invoke-IsListed host env c v u run i,
              (y, g, Follows-trans n m env.sequence s x y p q),
            )))
  Runs-Continues id n s w l e _ _ (Runs.elsewhere {m} {v} r o later h) =
      let (i, (x, f, p)) = Runs-Continues id n s w l e m v r in
      (
        same-IsListed v (record v { outside = o }) refl refl refl refl i,
        (x, f, Follows-trans n m later s x x p (same-Follows x m later h)),
      )

  -- Whatever calls are made at ledgers that never go back, and whatever happens outside: a stream
  -- that is stored stays stored under its id with the same terms, what was withdrawn from it never
  -- falls, its live status follows the diagram from pending over active to completed or to cancelled,
  -- and a status that is completed or cancelled stays.
  pub stream-Continues :
      (o : W) (id n m : ℕ) (s : Stream) (w v : World W)
      → Ran host o w
      → lookup id w.streams ≡ some s
      → Runs host n w m v
      → (s' : Stream) × (lookup id v.streams ≡ some s')
        × Follows n m s s'
        × ((compute_status s n ≡ completed) ⊎ (compute_status s n ≡ cancelled)
            → compute_status s' m ≡ compute_status s n)
  stream-Continues o id n m s w v ran e r =
      let (_, (x, f, p)) = Runs-Continues id n s w (Ran-IsListed host o w ran) e m v r in
      (x, f, p, final_stays (compute_status s n) (compute_status x m) p.moves)

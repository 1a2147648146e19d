-- ===== src/Stream/CancelSolvency.antt =====
-- A cancellation leaves every stream covered.
use stellar_stream_hive_cont.Base.{ℕ, ◌≤◌, ◌≡◌, ◌≢◌, refl, inl, inr, arith}
use stellar_stream_hive_cont.Base.Int.{ℤ, ◌-ℤ◌, ◌≤ℤ◌, int_laws}
use stellar_stream_hive_cont.Host.{Env, Address, ok}
use stellar_stream_hive_cont.Host.Invoke.{Invoker}
use stellar_stream_hive_cont.Stream.Types.{Stream, cancelled}
use stellar_stream_hive_cont.Stream.Math.{streamed_amount}
use stellar_stream_hive_cont.Stream.Storage.{World}
use stellar_stream_hive_cont.Stream.Contract.{cancel_stream}
use stellar_stream_hive_cont.Stream.VaultLaws.{IsVault}
use stellar_stream_hive_cont.Stream.Accrual.{IsWellFormed}
use stellar_stream_hive_cont.Stream.Entitled.{
  entitled-le, entitled-stopped, earned-stopped, live-status, streamed_amount_ok,
}
use stellar_stream_hive_cont.Stream.CancelEffect.{stopped, cancel_stream_ok}
use stellar_stream_hive_cont.Stream.Solvency.{
  IsGood, IsSolvent, later-IsGood, configured_is, outstanding, payout-IsSolvent, unpaid-IsSolvent,
}

pub stopped-IsWellFormed : (s : Stream) (now : ℕ) → IsWellFormed s → IsWellFormed (stopped s now)
stopped-IsWellFormed s now v = record {
  positive = v.positive;
  fits = v.fits;
  ends_later = v.ends_later;
  cliff_from = v.cliff_from;
  cliff_to = v.cliff_to;
}

pub stopped-IsGood :
    (s : Stream) (now id : ℕ)
    → s.status ≢ cancelled
    → IsGood now id s
    → IsGood now s.id (stopped s now)
stopped-IsGood s now id n g = record {
  key = refl;
  terms = stopped-IsWellFormed s now g.terms;
  taken = g.taken;
  granted = rw (entitled-stopped s now now n) g.granted;
}

-- What a stopped stream may still pay out is what its recipient had earned and not taken.
pub outstanding-stopped :
    (s : Stream) (now : ℕ) (streamed : ℤ)
    → IsWellFormed s
    → s.status ≢ cancelled
    → streamed_amount (stopped s now) now ≡ ok streamed
    → (streamed ≤ℤ s.total_amount) × (outstanding (stopped s now) ≡ streamed -ℤ s.withdrawn)
outstanding-stopped s now streamed v n h =
    let q = streamed_amount_ok (stopped s now) now streamed (stopped-IsWellFormed s now v) h in
    let a = earned-stopped s now now n in rw (q, a) (entitled-le s now v, refl)

pub outstanding-live :
    (s : Stream) → s.status ≢ cancelled → outstanding s ≡ s.total_amount -ℤ s.withdrawn
outstanding-live s n = ground arith

module _ {W : Type 0} (host : Invoker W) (vault : Address) (laws : IsVault host vault) where
  pub cancel_stream-IsSolvent :
      (env : Env) (sender : Address) (stream_id : ℕ) (now : ℕ) (w w' : World W)
      → now ≤ env.sequence
      → IsSolvent host vault laws now w
      → cancel_stream host env sender stream_id w ≡ ok (tt, w')
      → IsSolvent host vault laws env.sequence w'
  cancel_stream-IsSolvent env sender id now w w' h v e =
      let (s, streamed, d) = cancel_stream_ok host env sender id w w' e in
      let n = live-status s env.sequence d.not_stopped in
      let c = v.streams id s d.found in
      let g = later-IsGood host vault laws now env.sequence id s h c.good in
      let o = outstanding-stopped s env.sequence streamed g.terms n d.streamed_now in
      let k = stopped-IsGood s env.sequence id n g in
      let q = rw (outstanding-live s n) at c.covered in
      elim d.refunded [
        | inl (none_left, same) ↦
            unpaid-IsSolvent host vault laws now env.sequence id s _ w w' h v d.others_kept.1
              d.stored g.key same c.denominated k (rw o.1 (omega (int_laws, o.0, q)))
        | inr (more, (u, at, paid)) ↦
            payout-IsSolvent host vault laws now env.sequence id _ s _ w w' h v d.others_kept.1
              d.stored g.key
              (laws.refund_takes env _ _ _ _ id w.outside w'.outside
                (rw (configured_is host vault laws u w v.configured at) at paid))
              c.denominated k (rw o.1 (omega (int_laws, o.0, q)))
      ]

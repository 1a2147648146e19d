-- ===== src/Stream/Available.antt =====
-- When a withdrawal goes through.
use stellar_stream_hive_cont.Base.{ℕ, ◌≡◌, ◌-◌, if◌then◌else◌, true, some, ◌∷◌, arith}
use stellar_stream_hive_cont.Base.Int.{
  ℤ, pos, pos_part, ◌+ℤ◌, ◌≤ℤ◌, checked_add, checked_add_fits, +ℤ_IsI128, int_laws, parts_apart,
}
use stellar_stream_hive_cont.Base.Dict.{lookup, insert}
use stellar_stream_hive_cont.Host.{Env, Address, ok}
use stellar_stream_hive_cont.Host.Invoke.{Invoker}
use stellar_stream_hive_cont.Stream.Types.{Stream, StreamEvent}
use stellar_stream_hive_cont.Stream.Storage.{World}
use stellar_stream_hive_cont.Stream.VaultClient
use stellar_stream_hive_cont.Stream.Contract.{withdraw}
use stellar_stream_hive_cont.Stream.Math.{is_cancelled, withdrawable_amount}
use stellar_stream_hive_cont.Stream.Accrual.{IsWellFormed, HasRoom, earned}
use stellar_stream_hive_cont.Stream.Entitled.{entitled, entitled-le}
use stellar_stream_hive_cont.Stream.Withdrawable.{claimable, withdrawable_amount-claimable}
use stellar_stream_hive_cont.Stream.Solvency.{IsGood, outstanding}

pub claimable-entitled :
    (s : Stream) (now : ℕ) → claimable s now ≡ entitled s now - pos_part s.withdrawn
claimable-entitled s now = ground arith

entitled-le-kept :
    (s : Stream) (now : ℕ)
    → IsWellFormed s
    → pos (entitled s now) ≤ℤ (if is_cancelled s then pos (earned s 0) else s.total_amount)
entitled-le-kept s now v = ground (arith, entitled-le s now v)

-- What is claimable is still outstanding.
pub claimable-le-outstanding :
    (s : Stream) (now id : ℕ) → IsGood now id s → pos (claimable s now) ≤ℤ outstanding s
claimable-le-outstanding s now id g =
    let most = entitled-le-kept s now g.terms in
    omega (int_laws, claimable-entitled s now, parts_apart s.withdrawn, g.granted, g.taken)

module _ {W : Type 0} (host : Invoker W) where
  guarded_withdraw :
      (env : Env) (s : Stream) (id : ℕ) (amount available : ℤ) (vault : Address) (o : W)
      (w : World W)
      → lookup id w.streams ≡ some s
      → env.authorizes s.recipient ≡ true
      → w.vault ≡ some vault
      → pos 1 ≤ℤ amount
      → withdrawable_amount s env.sequence ≡ ok available
      → amount ≤ℤ available
      → checked_add s.withdrawn amount ≡ some (s.withdrawn +ℤ amount)
      → VaultClient.release host env vault env.current_contract s.recipient s.token amount id
          w.outside
        ≡ some o
      → withdraw host env s.recipient id amount w
        ≡ ok (
          tt,
          record w {
            streams = insert s.id (record s { withdrawn = s.withdrawn +ℤ amount }) w.streams;
            outside = o;
            events = StreamEvent.withdraw id s.recipient amount ∷ w.events;
          },
        )
  unfolding withdraw
  guarded_withdraw env s id amount available vault o w e a v p f le c r = ground arith

  -- A withdrawal of a positive amount up to what is claimable goes through if the vault pays.
  pub withdraw_succeeds :
      (env : Env) (s : Stream) (id : ℕ) (amount : ℤ) (vault : Address) (o : W) (w : World W)
      → lookup id w.streams ≡ some s
      → IsGood env.sequence id s
      → HasRoom s
      → env.authorizes s.recipient ≡ true
      → w.vault ≡ some vault
      → pos 1 ≤ℤ amount
      → amount ≤ℤ pos (claimable s env.sequence)
      → VaultClient.release host env vault env.current_contract s.recipient s.token amount id
          w.outside
        ≡ some o
      → withdraw host env s.recipient id amount w
        ≡ ok (
          tt,
          record w {
            streams = insert s.id (record s { withdrawn = s.withdrawn +ℤ amount }) w.streams;
            outside = o;
            events = StreamEvent.withdraw id s.recipient amount ∷ w.events;
          },
        )
  withdraw_succeeds env s id amount vault o w e g r a v p le paid =
      let most = entitled-le s env.sequence g.terms in
      let held = g.granted in
      let low = g.taken in
      let fits = g.terms.fits in
      guarded_withdraw env s id amount (pos (claimable s env.sequence)) vault o w e a v p
        (withdrawable_amount-claimable s env.sequence g.terms r g.taken
          (omega (arith, parts_apart s.withdrawn)))
        le
        (checked_add_fits s.withdrawn amount (
          +ℤ_IsI128 s.withdrawn amount low (omega arith)
            (omega (int_laws, claimable-entitled s env.sequence, parts_apart s.withdrawn))))
        paid

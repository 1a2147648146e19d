-- ===== src/Stream/Drain.antt =====
-- What is left to withdraw after a withdrawal.
use stellar_stream_hive_cont.Base.{
  ℕ, ◌-◌, ◌≤◌, ◌≡◌, refl, sym, ◌∙◌, ap, some, inl, inr, arith, ==-refl, Bool-cases,
}
use mathlib.Core.Option.{some-injective}
use stellar_stream_hive_cont.Base.Int.{
  ℤ, pos, pos_part, ◌+ℤ◌, ◌-ℤ◌, ◌≤ℤ◌, eqb_ℤ, i128_max, checked_sub, -ℤ_pos, int_laws, parts_apart,
  eq_of_parts, parts_of_eq,
}
use stellar_stream_hive_cont.Base.Dict.{lookup, insert, lookup-insert}
use stellar_stream_hive_cont.Host.{Env, Address, ok, Outcome-cases}
use stellar_stream_hive_cont.Host.Invoke.{Invoker}
use stellar_stream_hive_cont.Stream.Types.{Stream}
use stellar_stream_hive_cont.Stream.Storage.{World}
use stellar_stream_hive_cont.Stream.Contract.{withdraw, withdraw_max}
use stellar_stream_hive_cont.Stream.Math.{accrue, streamed_amount, withdrawable_amount, unwithdrawn}
use stellar_stream_hive_cont.Stream.Accrual.{IsWellFormed, earned, earned-le}
use stellar_stream_hive_cont.Stream.Entitled.{
  entitled, streamed_amount_ok, withdrawable_amount_ok, withdraw_granted,
}
use stellar_stream_hive_cont.Stream.Effects.{withdraw_ok}
use stellar_stream_hive_cont.Stream.Reach.{withdraw_max_ok}
use stellar_stream_hive_cont.Stream.Solvency.{IsGood}

-- The stream after a withdrawal.
abbrev pub drawn : Stream → ℤ → Stream
drawn s amount = record s { withdrawn = s.withdrawn +ℤ amount }

-- Where something is withdrawable the stream runs past its cliff or was stopped after it.
accrues :
    (s : Stream) (now : ℕ) (available amount : ℤ)
    → withdrawable_amount s now ≡ ok available
    → pos 1 ≤ℤ available
    → (withdrawable_amount s now ≡ unwithdrawn s now)
      × (withdrawable_amount (drawn s amount) now ≡ unwithdrawn (drawn s amount) now)
      × (entitled s now ≡ earned s now)
unfolding withdrawable_amount
accrues s now available amount e p = ground arith

streamed-drawn :
    (s : Stream) (now : ℕ) (amount : ℤ)
    → streamed_amount (drawn s amount) now ≡ streamed_amount s now
unfolding streamed_amount accrue
streamed-drawn s now amount = refl

-- What is left where the accrual is known.
unwithdrawn-left :
    (s : Stream) (now e : ℕ)
    → streamed_amount s now ≡ ok (pos e)
    → pos 0 ≤ℤ s.withdrawn
    → pos_part s.withdrawn ≤ e
    → e ≤ i128_max
    → unwithdrawn s now ≡ ok (pos (e - pos_part s.withdrawn))
unfolding unwithdrawn checked_sub
unwithdrawn-left s now e h p b m = rw (h, -ℤ_pos e s.withdrawn p) (ground arith)

-- The accrual of a stream that something can be withdrawn from.
unwithdrawn_accrual :
    (s : Stream) (now : ℕ) (available : ℤ)
    → IsWellFormed s
    → unwithdrawn s now ≡ ok available
    → streamed_amount s now ≡ ok (pos (earned s now))
unfolding unwithdrawn
unwithdrawn_accrual s now available v e = elim (Outcome-cases (streamed_amount s now)) [
  | inl (b, f) ↦ f ∙ ap ok (streamed_amount_ok s now b v f)
  | inr n ↦ absurd (ground arith)
]

-- A withdrawal lowers what is withdrawable by its amount.
pub withdrawable_amount-drawn :
    (s : Stream) (now id : ℕ) (available amount : ℤ)
    → IsGood now id s
    → withdrawable_amount s now ≡ ok available
    → pos 1 ≤ℤ amount
    → amount ≤ℤ available
    → withdrawable_amount (drawn s amount) now ≡ ok (available -ℤ amount)
withdrawable_amount-drawn s now id available amount g e p le =
    let v = g.terms in
    let (a, b, full) = accrues s now available amount e (omega arith) in
    let known = withdrawable_amount_ok s now available v g.taken g.granted e in
    let accrual = unwithdrawn_accrual s now available v (sym a ∙ e) in
    let (low, high) = withdraw_granted s now amount available v g.taken g.granted e p le in
    let most = earned-le s now v in
    let fits = v.fits in
    b
    ∙ unwithdrawn-left (drawn s amount) now (earned s now) (streamed-drawn s now amount ∙ accrual)
        low (omega (arith, full, high)) (omega (arith, parts_apart s.total_amount))
    ∙ ap ok (
        eq_of_parts _ _ (
          omega (
            int_laws,
            full,
            high,
            low,
            parts_of_eq known,
            parts_apart s.withdrawn,
            parts_apart amount,
            parts_apart (s.withdrawn +ℤ amount),
          )))

drawn-zero : (s : Stream) → drawn s (pos 0) ≡ s
drawn-zero s =
    ap {A = ℤ} {B = Stream} (λ n. record s { withdrawn = n })
      (eq_of_parts (s.withdrawn +ℤ pos 0) s.withdrawn (omega int_laws))

self-minus : (a : ℤ) → a -ℤ a ≡ pos 0
self-minus a = eq_of_parts _ _ (omega int_laws)

module _ {W : Type 0} (host : Invoker W) where
  pub withdraw_max-available :
      (env : Env) (recipient : Address) (id : ℕ) (amount : ℤ) (s : Stream) (w w' : World W)
      → lookup id w.streams ≡ some s
      → withdraw_max host env recipient id w ≡ ok (amount, w')
      → withdrawable_amount s env.sequence ≡ ok amount
  unfolding withdraw_max
  withdraw_max-available env recipient id amount s w w' e run =
      elim (Outcome-cases (withdrawable_amount s env.sequence)) [
        | inr n ↦ absurd (ground arith)
        | inl (available, f) ↦ elim (Bool-cases (eqb_ℤ available (pos 0))) [
          | inl none_left ↦ ground arith
          | inr some_left ↦ elim (Outcome-cases (withdraw host env recipient id available w)) [
            | inr n ↦ absurd (ground arith)
            | inl (a, g) ↦ ground arith
          ]
        ]
      ]

  -- For a stream stored under its id with admitted terms, from which no more was withdrawn than its
  -- recipient was entitled to: a `withdraw_max` that goes through answers what was withdrawable, adds
  -- it to what was withdrawn and changes nothing else of the stream, and leaves nothing to withdraw at
  -- that ledger.
  pub withdraw_max_drains :
      (env : Env) (recipient : Address) (id : ℕ) (amount : ℤ) (s : Stream) (w w' : World W)
      → lookup id w.streams ≡ some s
      → IsGood env.sequence id s
      → withdraw_max host env recipient id w ≡ ok (amount, w')
      → (withdrawable_amount s env.sequence ≡ ok amount)
        × (lookup id w'.streams ≡ some (drawn s amount))
        × (withdrawable_amount (drawn s amount) env.sequence ≡ ok (pos 0))
  withdraw_max_drains env recipient id amount s w w' e g run =
      let f = withdraw_max-available env recipient id amount s w w' e run in
      elim (withdraw_max_ok host env recipient id amount w w' run) [
        | inl (nothing, same) ↦
            let q : drawn s amount ≡ s = ap (drawn s) nothing ∙ drawn-zero s in
            (f, rw (same, q) e, rw q (f ∙ ap ok nothing))
        | inr taken ↦
            let (r, d) = withdraw_ok host env recipient id amount w w' taken in
            let same : r ≡ s = some-injective _ _ (sym d.found ∙ e) in
            let stored : w'.streams ≡ insert id (drawn s amount) w.streams =
              d.stored
              ∙ ap (λ (x : Stream). insert x.id (drawn x amount) w.streams) same
              ∙ ap (λ k. insert k (drawn s amount) w.streams) g.key in
            (
              f,
              ap (lookup id) stored
                  ∙ lookup-insert id id (drawn s amount) w.streams
                  ∙ rw (==-refl id) refl,
              withdrawable_amount-drawn s env.sequence id amount amount g f d.positive (omega arith)
                  ∙ ap ok (self-minus amount),
            )
      ]

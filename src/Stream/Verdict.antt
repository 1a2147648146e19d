-- ===== src/Stream/Verdict.antt =====
-- How the calls that pay out end: which guard of contracts/stream/src/lib.rs refuses them first, if
-- the arithmetic goes through, and if the vault pays.
use stellar_stream_hive_cont.Base.{
  ℕ, ◌<◌, ◌≡◌, ◌≢◌, refl, sym, ◌∙◌, true, Option, none, some, ◌==◌, ◌||◌, not, arith, inl, inr,
  Bool-cases, ==→eq, if◌then◌else◌, leb,
}
use stellar_stream_hive_cont.Base.Int.{ℤ, pos, ◌≤ℤ◌, leb_ℤ, ltb_ℤ}
use stellar_stream_hive_cont.Base.Dict.{lookup}
use stellar_stream_hive_cont.Host.{Env, Address, Outcome, ok, err, trap, value_of}
use stellar_stream_hive_cont.Host.Invoke.{Invoker}
use stellar_stream_hive_cont.Stream.Types.{
  Stream, StreamError, cancelled, unauthorized, invalid_amount, stream_not_found,
  exceeds_withdrawable, not_cancellable, already_finalized,
}
use stellar_stream_hive_cont.Stream.Math.{is_cancelled, withdrawable_amount, compute_status}
use stellar_stream_hive_cont.Stream.Storage.{World}
use stellar_stream_hive_cont.Stream.Contract.{withdraw, withdraw_max, cancel_stream}
use stellar_stream_hive_cont.Stream.Withdrawable.{claimable}

-- What a call needs of its caller's authorization.
abbrev signed : {A : Type 0} → Env → Address → Outcome StreamError A → Outcome StreamError A
signed env caller r = if env.authorizes caller then r else trap

-- How a withdrawal of `amount` by `caller` ends.
abbrev pub withdraw_verdict : Env → Address → ℤ → Option Stream → Outcome StreamError (Unit {0})
withdraw_verdict env caller amount none =
    signed env caller (if leb_ℤ amount (pos 0) then err invalid_amount else err stream_not_found)
withdraw_verdict env caller amount (some s) = signed env caller (
    if leb_ℤ amount (pos 0)
    then err invalid_amount
    else if not (s.recipient == caller)
    then err unauthorized
    else if ltb_ℤ (pos (claimable s env.sequence)) amount
    then err exceeds_withdrawable
    else ok tt)

-- How `withdraw_max` by `caller` ends. Where nothing is left it needs no authorization.
abbrev pub withdraw_max_verdict : Env → Address → Option Stream → Outcome StreamError ℤ
withdraw_max_verdict env caller none = err stream_not_found
withdraw_max_verdict env caller (some s) =
    if not (s.recipient == caller)
    then err unauthorized
    else if claimable s env.sequence == 0
    then ok (pos 0)
    else signed env caller (ok (pos (claimable s env.sequence)))

-- How a cancellation by `caller` ends.
abbrev pub cancel_verdict : Env → Address → Option Stream → Outcome StreamError (Unit {0})
cancel_verdict env caller none = signed env caller (err stream_not_found)
cancel_verdict env caller (some s) = signed env caller (
    if not (s.sender == caller)
    then err unauthorized
    else if not s.cancellable
    then err not_cancellable
    else if is_cancelled s || leb s.end_ledger env.sequence
    then err already_finalized
    else ok tt)

finished :
    {S A : Type 0} (m : Outcome StreamError (A × S)) {a : A}
    → value_of m ≡ ok a
    → (s : S) × (m ≡ ok (a, s))
finished (ok (b, s)) h = (s, ground arith)
finished (err x) h = absurd (ground arith)
finished trap h = absurd (ground arith)

trapped : {S A : Type 0} (m : Outcome StreamError (A × S)) → value_of m ≡ trap → m ≡ trap
trapped (ok (b, s)) h = absurd (ground arith)
trapped (err x) h = absurd (ground arith)
trapped trap h = refl

module _ {W : Type 0} (host : Invoker W) where
  pub withdraw-missing :
      (env : Env) (caller : Address) (id : ℕ) (amount : ℤ) (w : World W)
      → lookup id w.streams ≡ none
      → value_of (withdraw host env caller id amount w) ≡ withdraw_verdict env caller amount none
  unfolding withdraw
  withdraw-missing env caller id amount w e = ground arith

  pub withdraw_max-missing :
      (env : Env) (caller : Address) (id : ℕ) (w : World W)
      → lookup id w.streams ≡ none
      → value_of (withdraw_max host env caller id w) ≡ withdraw_max_verdict env caller none
  unfolding withdraw_max
  withdraw_max-missing env caller id w e = ground arith

  pub cancel-missing :
      (env : Env) (caller : Address) (id : ℕ) (w : World W)
      → lookup id w.streams ≡ none
      → value_of (cancel_stream host env caller id w) ≡ cancel_verdict env caller none
  unfolding cancel_stream
  cancel-missing env caller id w e = ground arith

  pub withdraw-found :
      (env : Env) (caller : Address) (s : Stream) (id : ℕ) (amount : ℤ) (w : World W)
      → lookup id w.streams ≡ some s
      → withdrawable_amount s env.sequence ≡ ok (pos (claimable s env.sequence))
      → (env.authorizes caller ≡ true
          → s.recipient ≡ caller
          → pos 1 ≤ℤ amount
          → amount ≤ℤ pos (claimable s env.sequence)
          → value_of (withdraw host env caller id amount w) ≡ ok tt)
      → value_of (withdraw host env caller id amount w)
        ≡ withdraw_verdict env caller amount (some s)
  unfolding withdraw
  withdraw-found env caller s id amount w e a paid = elim (Bool-cases (env.authorizes caller)) [
    | inr unsigned ↦ ground arith
    | inl granted ↦ elim (Bool-cases (leb_ℤ amount (pos 0))) [
      | inl low ↦ ground arith
      | inr some_amount ↦ elim (Bool-cases (s.recipient == caller)) [
        | inr other ↦ ground arith
        | inl same ↦ elim (Bool-cases (ltb_ℤ (pos (claimable s env.sequence)) amount)) [
          | inl more ↦ ground arith
          | inr enough ↦
              let through : withdraw_verdict env caller amount (some s) ≡ ok tt = ground arith in
              paid granted (==→eq s.recipient caller same) (ground arith) (ground arith)
              ∙ sym through
        ]
      ]
    ]
  ]

  pub withdraw_max-found :
      (env : Env) (caller : Address) (s : Stream) (id : ℕ) (w : World W)
      → lookup id w.streams ≡ some s
      → withdrawable_amount s env.sequence ≡ ok (pos (claimable s env.sequence))
      → value_of (withdraw host env caller id (pos (claimable s env.sequence)) w)
        ≡ withdraw_verdict env caller (pos (claimable s env.sequence)) (some s)
      → value_of (withdraw_max host env caller id w) ≡ withdraw_max_verdict env caller (some s)
  unfolding withdraw_max
  withdraw_max-found env caller s id w e a r = elim (Bool-cases (s.recipient == caller)) [
    | inr other ↦ ground arith
    | inl same ↦ elim (Bool-cases (claimable s env.sequence == 0)) [
      | inl nothing ↦ ground arith
      | inr something ↦
          let amount = pos (claimable s env.sequence) in
          elim (Bool-cases (env.authorizes caller)) [
            | inr unsigned ↦
                let refused : withdraw_verdict env caller amount (some s) ≡ trap = ground arith in
                let run = trapped (withdraw host env caller id amount w) (r ∙ refused) in
                ground arith
            | inl granted ↦
                let through : withdraw_verdict env caller amount (some s) ≡ ok tt = ground arith in
                let (w', run) = finished (withdraw host env caller id amount w) (r ∙ through) in
                ground arith
          ]
    ]
  ]

  pub cancel-found :
      (env : Env) (caller : Address) (s : Stream) (id : ℕ) (w : World W)
      → lookup id w.streams ≡ some s
      → s.start_ledger < s.end_ledger
      → (env.authorizes caller ≡ true
          → s.sender ≡ caller
          → s.cancellable ≡ true
          → s.status ≢ cancelled
          → env.sequence < s.end_ledger
          → value_of (cancel_stream host env caller id w) ≡ ok tt)
      → value_of (cancel_stream host env caller id w) ≡ cancel_verdict env caller (some s)
  unfolding cancel_stream compute_status
  cancel-found env caller s id w e later refunded = elim (Bool-cases (env.authorizes caller)) [
    | inr unsigned ↦ ground arith
    | inl granted ↦ elim (Bool-cases (s.sender == caller)) [
      | inr other ↦ ground arith
      | inl same ↦ elim (Bool-cases s.cancellable) [
        | inr fixed ↦ ground arith
        | inl may ↦ elim (Bool-cases (is_cancelled s || leb s.end_ledger env.sequence)) [
          | inl over ↦ ground arith
          | inr runs ↦
              let through : cancel_verdict env caller (some s) ≡ ok tt = ground arith in
              refunded granted (==→eq s.sender caller same) may (ground arith) (ground arith)
              ∙ sym through
        ]
      ]
    ]
  ]

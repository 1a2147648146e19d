-- ===== src/Host.antt =====
-- What the contracts use of their host: the environment of a call, the ways a call ends, and the
-- state that it passes on. A call that does not end with `ok` leaves no state behind: the host
-- discards what a failed call has written.
pub mod Results
pub mod Invoke
pub mod Token
pub mod Lifetime
pub use Results.{Outcome, ok, err, trap, Outcome-cases, is_ok}
use stellar_stream_hive_cont.Base.{
  ℕ, ◌≡◌, refl, Bool, true, false, not, ◌&&◌, ◌==◌, Option, none, some,
}

-- Addresses are only compared.
abbrev pub Address : Type 0
Address = ℕ

-- One call of a contract: `env.ledger().sequence()`, `env.current_contract_address()`, and the
-- addresses whose `require_auth()` goes through in this call.
pub record Env : Type 0 where
  pub sequence : ℕ
  pub current_contract : Address
  pub authorizes : Address → Bool

abbrev pub Action : Type 0 → Type 0 → Type 0 → Type 0
Action S E A = S → Outcome E (A × S)

module _ {S E : Type 0} where
  infixl 5 ◌>>=◌ ◌>>◌
  abbrev pub ◌>>=◌ : {A B : Type 0} → Action S E A → (A → Action S E B) → Action S E B
  ◌>>=◌ m f s = elim (m s) [ ok (a, s') ↦ f a s' | err e ↦ err e | trap ↦ trap ]

  abbrev pub ◌>>◌ : {B : Type 0} → Action S E (Unit {0}) → Action S E B → Action S E B
  m >> k = m >>= λ _. k

  abbrev pub pure : {A : Type 0} → A → Action S E A
  pure a s = ok (a, s)

  abbrev pub gets : {A : Type 0} → (S → A) → Action S E A
  gets f s = ok (f s, s)

  abbrev pub modify : (S → S) → Action S E (Unit {0})
  modify f s = ok (tt, f s)

  -- `if c { return Err(e); }`
  abbrev pub raise_if : Bool → E → Action S E (Unit {0})
  raise_if true e s = err e
  raise_if false e s = ok (tt, s)

  -- `o.ok_or(e)?`
  abbrev pub ok_or : {A : Type 0} → Option A → E → Action S E A
  ok_or none e s = err e
  ok_or (some a) e s = ok (a, s)

  -- `r?` of a computation that reads no state
  abbrev pub lift : {A : Type 0} → Outcome E A → Action S E A
  lift (ok a) s = ok (a, s)
  lift (err e) s = err e
  lift trap s = trap

  abbrev pub trap_unless : Bool → Action S E (Unit {0})
  trap_unless true s = ok (tt, s)
  trap_unless false s = trap

  -- `address.require_auth()`
  abbrev pub require_auth : Env → Address → Action S E (Unit {0})
  require_auth env a = trap_unless (env.authorizes a)

  -- `address.require_auth()` after `earlier.require_auth()` in the same invocation: the host rejects a
  -- second one of the same address.
  abbrev pub require_auth_after : Env → Address → Address → Action S E (Unit {0})
  require_auth_after env earlier a = trap_unless (env.authorizes a && not (a == earlier))

  -- `if c { m } else { k }`, where the branches read the state
  abbrev pub choose : {A : Type 0} → Bool → Action S E A → Action S E A → Action S E A
  choose true m k s = m s
  choose false m k s = k s

  -- `if c { m }`
  abbrev pub when : Bool → Action S E (Unit {0}) → Action S E (Unit {0})
  when true m s = m s
  when false m s = ok (tt, s)

  -- A step of the world outside the contract; a failure there is a trap here.
  abbrev pub external : (S → Option S) → Action S E (Unit {0})
  external f s = elim (f s) [ none ↦ trap | some s' ↦ ok (tt, s') ]

-- The result of a call without the state.
abbrev pub value_of : {S E A : Type 0} → Outcome E (A × S) → Outcome E A
value_of (ok (a, s)) = ok a
value_of (err e) = err e
value_of trap = trap

-- The state after a call: the host keeps the old one where the call failed.
abbrev pub commit : {S E A : Type 0} → S → Outcome E (A × S) → S
commit s (ok (a, s')) = s'
commit s (err e) = s
commit s trap = s

-- A property of the state after a call, from the property before and after each success.
pub commit_elim :
    {S E : Type 0} (P : S → Type 0) (s : S) (r : Outcome E (Unit {0} × S))
    → P s
    → ((s' : S) → r ≡ ok (tt, s') → P s')
    → P (commit s r)
commit_elim P s (ok (u, s')) p h = h s' refl
commit_elim P s (err e) p h = p
commit_elim P s trap p h = p

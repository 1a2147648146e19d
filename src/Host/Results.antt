-- ===== src/Host/Results.antt =====
-- The ways a call ends, and the chain of fallible steps that reads no state.
use stellar_stream_hive_cont.Base.{◌≡◌, refl, ◌⊎◌, inl, inr, Bool, true, false, Option, none, some}

-- `Ok`, `Err`, and a panic or a refusal of the host.
pub data Outcome (E A : Type 0) : Type 0 where
  ok : A → Outcome E A
  err : E → Outcome E A
  trap : Outcome E A

module _ {E : Type 0} where
  infixl 5 ◌>>=◌ ◌>>◌
  abbrev pub ◌>>=◌ : {A B : Type 0} → Outcome E A → (A → Outcome E B) → Outcome E B
  ok a >>= f = f a
  err e >>= f = err e
  trap >>= f = trap

  abbrev pub ◌>>◌ : {B : Type 0} → Outcome E (Unit {0}) → Outcome E B → Outcome E B
  m >> k = m >>= λ _. k

  -- `if c { return Err(e); }`
  abbrev pub raise_if : Bool → E → Outcome E (Unit {0})
  raise_if true e = err e
  raise_if false e = ok tt

  -- `o.ok_or(e)?`
  abbrev pub ok_or : {A : Type 0} → Option A → E → Outcome E A
  ok_or none e = err e
  ok_or (some a) e = ok a

pub Outcome-cases :
    {E A : Type 0} (r : Outcome E A)
    → ((a : A) × (r ≡ ok a)) ⊎ (((e : E) × (r ≡ err e)) ⊎ (r ≡ trap))
Outcome-cases (ok a) = inl (a, refl)
Outcome-cases (err e) = inr (inl (e, refl))
Outcome-cases trap = inr (inr refl)

abbrev pub is_ok : {E A : Type 0} → Outcome E A → Bool
is_ok (ok a) = true
is_ok (err e) = false
is_ok trap = false

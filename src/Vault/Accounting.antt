-- ===== src/Vault/Accounting.antt =====
-- The accounts of the vault: the sum of the balances of a token's streams.
use stellar_stream_hive_cont.Base.{
  ℕ, ◌≡◌, Option, refl, Bool, false, none, some, [], ◌∷◌, ◌==◌, if◌then◌else◌, arith, inl, inr,
  Bool-cases, ==→eq, ==-refl,
}
use stellar_stream_hive_cont.Base.Int.{ℤ, pos, ◌+ℤ◌, ◌≤ℤ◌, int_laws, parts_of_eq}
use stellar_stream_hive_cont.Base.Dict.{Dict, lookup, insert, lookup-insert, unwrap_or}
use stellar_stream_hive_cont.Host.{Address}

-- Whether the stream was funded in the token.
abbrev pub is_in : Option Address → Address → Bool
is_in none t = false
is_in (some a) t = a == t

-- The balances of all streams that were funded in the token `t`.
abbrev pub locked_sum : Dict Address → Address → Dict ℤ → ℤ
locked_sum tokens t [] = pos 0
locked_sum tokens t ((id, b) ∷ d) =
    (if is_in (lookup id tokens) t then b else pos 0) +ℤ locked_sum tokens t d

-- Writing one balance changes the sum by the difference, in the stream's own token only.
pub locked_sum-insert :
    (tokens : Dict Address) (t : Address) (id : ℕ) (b : ℤ) (d : Dict ℤ)
    → locked_sum tokens t (insert id b d)
        +ℤ (if is_in (lookup id tokens) t then unwrap_or (lookup id d) (pos 0) else pos 0)
      ≡ locked_sum tokens t d +ℤ (if is_in (lookup id tokens) t then b else pos 0)
locked_sum-insert tokens t id b [] = grind int_laws
locked_sum-insert tokens t id b ((j, v) ∷ d) = elim (Bool-cases (id == j)) [
  | inl same ↦ rw (same, ==→eq id j same) (omega int_laws)
  | inr other ↦ rw other (omega (int_laws, parts_of_eq (locked_sum-insert tokens t id b d)))
]

-- Fixing the token of a stream that has no balance yet changes no sum.
pub locked_sum-new_token :
    (tokens : Dict Address) (t : Address) (id : ℕ) (tok : Address) (d : Dict ℤ)
    → lookup id d ≡ none
    → locked_sum (insert id tok tokens) t d ≡ locked_sum tokens t d
locked_sum-new_token tokens t id tok [] h = refl
locked_sum-new_token tokens t id tok (e ∷ d) h =
    ground (arith, locked_sum-new_token tokens t id tok d, lookup-insert e.0 id tok tokens)

-- No balance is negative.
abbrev pub AllNonneg : Dict ℤ → Type 0
AllNonneg [] = Unit {0}
AllNonneg ((id, b) ∷ d) = (pos 0 ≤ℤ b) × AllNonneg d

pub lookup-nonneg : (id : ℕ) (d : Dict ℤ) → AllNonneg d → pos 0 ≤ℤ unwrap_or (lookup id d) (pos 0)
lookup-nonneg id [] h = omega arith
lookup-nonneg id (e ∷ d) h = ground (arith, lookup-nonneg id d h.1)

pub insert-AllNonneg :
    (id : ℕ) (b : ℤ) (d : Dict ℤ) → AllNonneg d → pos 0 ≤ℤ b → AllNonneg (insert id b d)
insert-AllNonneg id b [] h p = (p, tt)
insert-AllNonneg id b (e ∷ d) h p = ground (arith, insert-AllNonneg id b d h.1 p)

pub locked_sum-nonneg :
    (tokens : Dict Address) (t : Address) (d : Dict ℤ)
    → AllNonneg d
    → pos 0 ≤ℤ locked_sum tokens t d
locked_sum-nonneg tokens t [] h = omega arith
locked_sum-nonneg tokens t (x ∷ d) h = elim (Bool-cases (is_in (lookup x.0 tokens) t)) [
  | inl same ↦ rw same (omega (int_laws, locked_sum-nonneg tokens t d h.1))
  | inr other ↦ rw other (omega (int_laws, locked_sum-nonneg tokens t d h.1))
]

-- A stream's balance is part of its token's sum.
pub lookup-le-locked_sum :
    (tokens : Dict Address) (t : Address) (id : ℕ) (d : Dict ℤ)
    → AllNonneg d
    → lookup id tokens ≡ some t
    → unwrap_or (lookup id d) (pos 0) ≤ℤ locked_sum tokens t d
lookup-le-locked_sum tokens t id [] h e = omega arith
lookup-le-locked_sum tokens t id ((j, v) ∷ d) h e = elim (Bool-cases (id == j)) [
  | inl same ↦
      rw (same, ← ==→eq id j same, e, ==-refl t)
        (omega (int_laws, locked_sum-nonneg tokens t d h.1))
  | inr other ↦ rw other (elim (Bool-cases (is_in (lookup j tokens) t)) [
    | inl same ↦ rw same (omega (int_laws, lookup-le-locked_sum tokens t id d h.1 e))
    | inr apart ↦ rw apart (omega (int_laws, lookup-le-locked_sum tokens t id d h.1 e))
  ])
]

-- One balance is at most the sum of its token.
pub balance-le-locked_sum :
    (tokens : Dict Address) (token : Address) (id : ℕ) (d : Dict ℤ)
    → lookup id tokens ≡ some token
    → AllNonneg d
    → unwrap_or (lookup id d) (pos 0) ≤ℤ locked_sum tokens token d
balance-le-locked_sum tokens token id d known h =
    let sums = rw (known, ==-refl token) at (locked_sum-insert tokens token id (pos 0) d) in
    let rest =
      locked_sum-nonneg tokens token (insert id (pos 0) d)
        (insert-AllNonneg id (pos 0) d h (omega arith)) in
    omega (int_laws, parts_of_eq sums, rest)

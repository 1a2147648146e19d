-- ===== src/Base/Dict.antt =====
-- A contract's storage under one kind of key, as an association list in insertion order.
use stellar_stream_hive_cont.Base.{
  ℕ, ◌≡◌, refl, Bool, true, false, Option, none, some, List, [], ◌∷◌, arith, ◌==◌, if◌then◌else◌,
  inl, inr, Bool-cases, ==→eq,
}

abbrev pub Dict {ℓ} : Type ℓ → Type ℓ
Dict V = List (ℕ × V)

module _ {ℓ} {V : Type ℓ} where
  -- `storage().get(&key)`
  abbrev pub lookup : ℕ → Dict V → Option V
  lookup k [] = none
  lookup k ((j, v) ∷ d) = if k == j then some v else lookup k d

  -- `storage().set(&key, &v)`
  abbrev pub insert : ℕ → V → Dict V → Dict V
  insert k v [] = (k, v) ∷ []
  insert k v (e ∷ d) = if k == e.0 then (k, v) ∷ d else e ∷ insert k v d

  pub lookup-insert :
      (j k : ℕ) (v : V) (d : Dict V)
      → lookup j (insert k v d) ≡ (if j == k then some v else lookup j d)
  lookup-insert j k v [] = refl
  lookup-insert j k v (e ∷ d) = ground (arith, lookup-insert j k v d)

-- No key has two entries.
abbrev pub AllDistinct : {V : Type 0} → Dict V → Type 0
AllDistinct [] = Unit {0}
AllDistinct (e ∷ d) = (lookup e.0 d ≡ none) × AllDistinct d

pub insert-AllDistinct :
    {V : Type 0} (k : ℕ) (v : V) (d : Dict V) → AllDistinct d → AllDistinct (insert k v d)
insert-AllDistinct k v [] h = (refl, tt)
insert-AllDistinct k v (e ∷ d) h = elim (Bool-cases (k == e.0)) [
  | inl same ↦ rw same (rw (==→eq k e.0 same) h.0, h.1)
  | inr other ↦
      rw other (ground (arith, lookup-insert e.0 k v d, h.0), insert-AllDistinct k v d h.1)
]

-- An entry of the rest is found in the whole.
pub lookup-tail :
    {V : Type 0} (k : ℕ) (v : V) (e : ℕ × V) (d : Dict V)
    → AllDistinct (e ∷ d)
    → lookup k d ≡ some v
    → lookup k (e ∷ d) ≡ some v
lookup-tail k v e d h l = elim (Bool-cases (k == e.0)) [
  | inl same ↦ absurd (ground (arith, h.0))
  | inr other ↦ rw other l
]

-- `get(&key).unwrap_or(d)`
abbrev pub unwrap_or {ℓ} : {A : Type ℓ} → Option A → A → A
unwrap_or none d = d
unwrap_or (some a) d = a

abbrev pub is_some {ℓ} : {A : Type ℓ} → Option A → Bool
is_some none = false
is_some (some a) = true

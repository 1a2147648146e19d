-- ===== src/Registry/Totals.antt =====
-- What the statistics of the registry count: totals over its records.
use stellar_stream_hive_cont.Base.{
  ℕ, ◌≤◌, ◌+◌, ◌≡◌, refl, Bool, true, false, none, some, List, [], ◌∷◌, ◌++◌, arith, ◌==◌, inl, inr,
  Bool-cases,
}
use stellar_stream_hive_cont.Base.Int.{ℤ, pos, ◌+ℤ◌, int_laws, parts_of_eq}
use stellar_stream_hive_cont.Base.Dict.{Dict, lookup, insert}
use stellar_stream_hive_cont.Base.Lists.{length}
use stellar_stream_hive_cont.Registry.Types.{StreamRecord, is_active}

-- The ids of the records, in the order of their registration.
abbrev pub ids : Dict StreamRecord → List ℕ
ids [] = []
ids (e ∷ d) = e.0 ∷ ids d

abbrev pub sum_of : (StreamRecord → ℤ) → Dict StreamRecord → ℤ
sum_of f [] = pos 0
sum_of f (e ∷ d) = f e.1 +ℤ sum_of f d

abbrev pub one_if : Bool → ℕ
one_if true = 1
one_if false = 0

abbrev pub active_count : Dict StreamRecord → ℕ
active_count [] = 0
active_count (e ∷ d) = one_if (is_active e.1.status) + active_count d

-- A new record comes last.
pub ids-new :
    (id : ℕ) (r : StreamRecord) (d : Dict StreamRecord)
    → lookup id d ≡ none
    → ids (insert id r d) ≡ ids d ++ (id ∷ [])
ids-new id r [] h = refl
ids-new id r (e ∷ d) h = ground (arith, ids-new id r d)

pub sum_of-new :
    (f : StreamRecord → ℤ) (id : ℕ) (r : StreamRecord) (d : Dict StreamRecord)
    → lookup id d ≡ none
    → sum_of f (insert id r d) ≡ sum_of f d +ℤ f r
sum_of-new f id r [] h = grind int_laws
sum_of-new f id r (e ∷ d) h = elim (Bool-cases (id == e.0)) [
  | inl same ↦ absurd (ground arith)
  | inr other ↦ rw other (omega (int_laws, parts_of_eq (sum_of-new f id r d (rw other at h))))
]

pub active_count-new :
    (id : ℕ) (r : StreamRecord) (d : Dict StreamRecord)
    → lookup id d ≡ none
    → active_count (insert id r d) ≡ active_count d + one_if (is_active r.status)
active_count-new id r [] h = omega arith
active_count-new id r (e ∷ d) h = elim (Bool-cases (id == e.0)) [
  | inl same ↦ absurd (ground arith)
  | inr other ↦ rw other (omega (arith, active_count-new id r d (rw other at h)))
]

-- A record that replaces one keeps its place.
pub ids-replaced :
    (id : ℕ) (r s : StreamRecord) (d : Dict StreamRecord)
    → lookup id d ≡ some s
    → ids (insert id r d) ≡ ids d
ids-replaced id r s [] h = absurd (ground arith)
ids-replaced id r s (e ∷ d) h = ground (arith, ids-replaced id r s d)

pub sum_of-replaced :
    (f : StreamRecord → ℤ) (id : ℕ) (r s : StreamRecord) (d : Dict StreamRecord)
    → lookup id d ≡ some s
    → sum_of f (insert id r d) +ℤ f s ≡ sum_of f d +ℤ f r
sum_of-replaced f id r s [] h = absurd (ground arith)
sum_of-replaced f id r s (e ∷ d) h = elim (Bool-cases (id == e.0)) [
  | inl same ↦ let q : e.1 ≡ s = ground arith in rw (same, q) (omega int_laws)
  | inr other ↦
      rw other (omega (int_laws, parts_of_eq (sum_of-replaced f id r s d (rw other at h))))
]

pub active_count-replaced :
    (id : ℕ) (r s : StreamRecord) (d : Dict StreamRecord)
    → lookup id d ≡ some s
    → active_count (insert id r d) + one_if (is_active s.status)
      ≡ active_count d + one_if (is_active r.status)
active_count-replaced id r s [] h = absurd (ground arith)
active_count-replaced id r s (e ∷ d) h = elim (Bool-cases (id == e.0)) [
  | inl same ↦ let q : e.1 ≡ s = ground arith in rw (same, q) (omega arith)
  | inr other ↦ rw other (omega (arith, active_count-replaced id r s d (rw other at h)))
]

-- No more records are active than there are.
pub active_count-le : (d : Dict StreamRecord) → active_count d ≤ length (ids d)
active_count-le [] = omega arith
active_count-le (e ∷ d) = elim (Bool-cases (is_active e.1.status)) [
  | inl live ↦ rw live (omega (arith, active_count-le d))
  | inr over ↦ rw over (omega (arith, active_count-le d))
]

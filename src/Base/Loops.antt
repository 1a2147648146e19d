-- ===== src/Base/Loops.antt =====
-- The loop of the paginated queries as it is written, with its buffer, its condition and the checked
-- increment of its index, on fuel.
use stellar_stream_hive_cont.Base.{
  ℕ, zero, suc, ◌-◌, ◌≤◌, ◌<◌, ◌≡◌, refl, sym, ap, true, false, ◌∙◌, inl, inr, Option, none, some,
  List, [], ◌∷◌, ◌++◌, ltb, Option-cases, if◌then◌else◌, arith,
}
use stellar_stream_hive_cont.Base.Pages.{u32_max, gather, le-or-lt}
use mathlib.Core.List.{append_assoc, append-nil}

-- `if let Some(id) = found { out.push_back(id); }`
abbrev pub push_back {ℓ} : {A : Type ℓ} → List A → Option A → List A
push_back out none = out
push_back out (some a) = out ++ (a ∷ [])

-- `while index < end { if let Some(id) = get(index) { out.push_back(id); } index += 1; } out`. There
-- is no answer where the fuel is spent, or where the increment of the `u32` overflows.
abbrev pub collect {ℓ} : {A : Type ℓ} → (ℕ → Option A) → ℕ → ℕ → ℕ → List A → Option (List A)
collect get zero end index out = none
collect get (suc fuel) end index out =
    let rest = collect get fuel end (suc index) (push_back out (get index)) in
    if ltb index end then (if ltb index u32_max then rest else none) else some out

module _ {ℓ} {A : Type ℓ} where
  push_back-gather :
      (get : ℕ → Option A) (n index : ℕ) (out : List A)
      → push_back out (get index) ++ gather get n (suc index) ≡ out ++ gather get (suc n) index
  push_back-gather get n index out = elim (Option-cases (get index)) [
    | inl missing ↦ rw missing refl
    | inr (a, found) ↦ rw found (append_assoc out (a ∷ []) (gather get n (suc index)))
  ]

  -- With more fuel than there are rounds the loop ends, and has appended what `gather` finds.
  pub collect-gather :
      (get : ℕ → Option A) (fuel end index : ℕ) (out : List A)
      → end ≤ u32_max
      → end - index < fuel
      → collect get fuel end index out ≡ some (out ++ gather get (end - index) index)
  collect-gather get zero end index out h k = absurd (omega arith)
  collect-gather get (suc fuel) end index out h k = elim (le-or-lt end index) [
    | inl over ↦
        let (c, r) : (ltb index end ≡ false) × (end - index ≡ 0) = (ground arith, omega arith) in
        rw (c, r) (ap some (sym (append-nil out)))
    | inr inside ↦
        let (c, b) : (ltb index end ≡ true) × (ltb index u32_max ≡ true) =
          (ground arith, ground arith) in
        let r : end - index ≡ suc (end - suc index) = omega arith in
        rw (c, b, r)
          (collect-gather get fuel end (suc index) (push_back out (get index)) h (omega arith)
            ∙ ap some (push_back-gather get (end - suc index) index out))
  ]

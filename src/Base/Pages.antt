-- ===== src/Base/Pages.antt =====
-- The loop of the paginated queries: it pushes what it finds from one index up to another.
use stellar_stream_hive_cont.Base.{
  ℕ, zero, suc, ◌+◌, ◌-◌, ◌^◌, ◌≤◌, ◌<◌, ◌≡◌, refl, sym, ap, ◌∙◌, ◌⊎◌, min, Option, none, some,
  List, [], ◌∷◌, ◌++◌, arith, inl, inr, Option-cases,
}
use stellar_stream_hive_cont.Base.Lists.{length, get_elem?, take, drop}

abbrev pub u32_max : ℕ
u32_max = 2 ^ 32 - 1

-- `u32::saturating_add`
abbrev pub saturating_add : ℕ → ℕ → ℕ
saturating_add a b = min (a + b) u32_max

-- `if let Some(id) = found { out.push_back(id); }`, before the rest of the loop.
abbrev pub push {ℓ} : {A : Type ℓ} → Option A → List A → List A
push none rest = rest
push (some a) rest = a ∷ rest

-- `while index < end { if let Some(id) = get(index) { out.push_back(id); } index += 1; }` with
-- `end - index` rounds to go.
abbrev pub gather {ℓ} : {A : Type ℓ} → (ℕ → Option A) → ℕ → ℕ → List A
gather get zero index = []
gather get (suc rounds) index = push (get index) (gather get rounds (suc index))

pub le-or-lt : (a b : ℕ) → (a ≤ b) ⊎ (b < a)
le-or-lt a b = ground arith

module _ {ℓ} {A : Type ℓ} where
  take-empty : (n : ℕ) → take {A = A} n [] ≡ []
  take-empty zero = refl
  take-empty (suc n) = refl

  -- The loop over the same elements.
  pub gather-same :
      (f g : ℕ → Option A) (n i : ℕ)
      → ((j : ℕ) → i ≤ j → j < i + n → f j ≡ g j)
      → gather f n i ≡ gather g n i
  gather-same f g zero i h = refl
  gather-same f g (suc n) i h = rw (
    h i (omega arith) (omega arith),
    gather-same f g n (suc i) (λ j l u. h j (omega arith) (omega arith)),
  )

  -- A loop finds no more than one element a round.
  pub length-gather : (f : ℕ → Option A) (n i : ℕ) → length (gather f n i) ≤ n
  length-gather f zero i = omega arith
  length-gather f (suc n) i = elim (Option-cases (f i)) [
    | inl missing ↦ rw missing (omega (arith, length-gather f n (suc i)))
    | inr (x, found) ↦ rw found (omega (arith, length-gather f n (suc i)))
  ]

  -- One more round.
  pub gather-suc :
      (f : ℕ → Option A) (n i : ℕ) (a : A)
      → f (i + n) ≡ some a
      → gather f (suc n) i ≡ gather f n i ++ (a ∷ [])
  gather-suc f zero i a h = ground (arith, h)
  gather-suc f (suc n) i a h =
      let q : suc i + n ≡ i + suc n = omega arith in
      let e : f (suc i + n) ≡ some a = rw q h in
      let k = gather-suc f n (suc i) a e in
      elim (Option-cases (f i)) [
        | inl missing ↦ rw missing k
        | inr (x, found) ↦ rw found (ap (λ l. x ∷ l) k)
      ]

  -- Where every index has an element, a part of the loop is a part of its list.
  pub gather-take :
      (f : ℕ → Option A) (n m i : ℕ)
      → n ≤ m
      → ((j : ℕ) → j < i + m → (a : A) × (f j ≡ some a))
      → gather f n i ≡ take n (gather f m i)
  gather-take f zero m i h p = refl
  gather-take f (suc n) zero i h p = absurd (omega arith)
  gather-take f (suc n) (suc m) i h p =
      let (a, e) = p i (omega arith) in
      rw e (ap (λ l. a ∷ l) (gather-take f n m (suc i) (omega arith) (λ j l. p j (omega arith))))

  pub gather-drop :
      (f : ℕ → Option A) (k m i : ℕ)
      → k ≤ m
      → ((j : ℕ) → j < i + m → (a : A) × (f j ≡ some a))
      → gather f (m - k) (i + k) ≡ drop k (gather f m i)
  gather-drop f zero m i h p =
      let (q, r) : (m - 0 ≡ m) × (i + 0 ≡ i) = (omega arith, omega arith) in rw (q, r) refl
  gather-drop f (suc k) zero i h p = absurd (omega arith)
  gather-drop f (suc k) (suc m) i h p =
      let (a, e) = p i (omega arith) in
      let (q, r) : (suc m - suc k ≡ m - k) × (i + suc k ≡ suc i + k) = (omega arith, omega arith) in
      rw (e, q, r) (gather-drop f k m (suc i) (omega arith) (λ j l. p j (omega arith)))

  -- The loop's list is no longer than its rounds.
  take-gather :
      (f : ℕ → Option A) (k m i : ℕ)
      → m ≤ k
      → ((j : ℕ) → j < i + m → (a : A) × (f j ≡ some a))
      → take k (gather f m i) ≡ gather f m i
  take-gather f zero zero i h p = refl
  take-gather f (suc k) zero i h p = refl
  take-gather f zero (suc m) i h p = absurd (omega arith)
  take-gather f (suc k) (suc m) i h p =
      let (a, e) = p i (omega arith) in
      rw e (ap (λ l. a ∷ l) (take-gather f k m (suc i) (omega arith) (λ j l. p j (omega arith))))

  drop-gather :
      (f : ℕ → Option A) (k m i : ℕ)
      → m ≤ k
      → ((j : ℕ) → j < i + m → (a : A) × (f j ≡ some a))
      → drop k (gather f m i) ≡ []
  drop-gather f zero zero i h p = refl
  drop-gather f (suc k) zero i h p = refl
  drop-gather f zero (suc m) i h p = absurd (omega arith)
  drop-gather f (suc k) (suc m) i h p =
      let (a, e) = p i (omega arith) in
      rw e (drop-gather f k m (suc i) (omega arith) (λ j l. p j (omega arith)))

  -- A page: the loop from `offset` on, up to `limit` rounds and not beyond the `n` elements.
  pub gather-page :
      (f : ℕ → Option A) (n offset limit : ℕ)
      → n ≤ u32_max
      → ((j : ℕ) → j < n → (a : A) × (f j ≡ some a))
      → gather f (min (saturating_add offset limit) n - offset) offset
        ≡ take limit (drop offset (gather f n 0))
  gather-page f n offset limit b p = elim (le-or-lt offset n) [
    | inl inside ↦
        let q : (j : ℕ) → j < 0 + n → (a : A) × (f j ≡ some a) = λ j l. p j (omega arith) in
        let o : 0 + offset ≡ offset = omega arith in
        let rest : (j : ℕ) → j < offset + (n - offset) → (a : A) × (f j ≡ some a) =
          λ j l. p j (omega arith) in
        rw (← gather-drop f offset n 0 inside q, o)
          (elim (le-or-lt limit (n - offset)) [
            | inl short ↦
                let r : min (saturating_add offset limit) n - offset ≡ limit = omega arith in
                rw r (gather-take f limit (n - offset) offset short rest)
            | inr long ↦
                let r : min (saturating_add offset limit) n - offset ≡ n - offset = omega arith in
                rw r (sym (take-gather f limit (n - offset) offset (omega arith) rest))
          ])
    | inr beyond ↦
        let r : min (saturating_add offset limit) n - offset ≡ 0 = omega arith in
        rw (r, drop-gather f offset n 0 (omega arith) (λ j l. p j (omega arith)))
          (sym (take-empty limit))
  ]

  gather-shift :
      (x : A) (xs : List A) (n i : ℕ)
      → gather (get_elem? (x ∷ xs)) n (suc i) ≡ gather (get_elem? xs) n i
  gather-shift x xs zero i = refl
  gather-shift x xs (suc n) i = ap (push (get_elem? xs i)) (gather-shift x xs n (suc i))

  -- Over all of a list the loop copies it.
  pub gather-get_elem? : (xs : List A) → gather (get_elem? xs) (length xs) 0 ≡ xs
  gather-get_elem? [] = refl
  gather-get_elem? (x ∷ xs) =
      ap (λ l. x ∷ l) (gather-shift x xs (length xs) 0 ∙ gather-get_elem? xs)

  pub get_elem?-inside : (xs : List A) (j : ℕ) → j < length xs → (a : A) × (get_elem? xs j ≡ some a)
  get_elem?-inside [] j h = absurd (omega arith)
  get_elem?-inside (x ∷ xs) zero h = (x, refl)
  get_elem?-inside (x ∷ xs) (suc j) h = get_elem?-inside xs j (omega arith)

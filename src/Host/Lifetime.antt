-- ===== src/Host/Lifetime.antt =====
-- How long the ledger keeps the entries of a contract's storage. `extend_ttl` and the lifetime of a
-- new entry are the host's.
use stellar_stream_hive_cont.Base.{
  ℕ, ◌+◌, ◌≤◌, ◌≡◌, refl, ◌⊎◌, ◌==◌, ==→eq, inl, inr, Bool, true, Option, none, some, arith,
  Bool-cases, if◌then◌else◌,
}
use stellar_stream_hive_cont.Base.Pages.{le-or-lt}
use stellar_stream_hive_cont.Base.Dict.{Dict, lookup, insert, lookup-insert, unwrap_or}
use stellar_stream_hive_cont.Host.{Outcome, ok, err, trap, is_ok, commit}

pub record Keeper : Type 0 where
  -- `extend_ttl(threshold, extend_to)` in the ledger `now`, for an entry that lives until `until`.
  pub extended : (now until threshold extend_to : ℕ) → ℕ
  -- The last ledger of an entry that is created in the ledger `now`.
  pub first : ℕ → ℕ

-- An entry that has at most `threshold` ledgers left gets `extend_to`; no entry loses any.
pub record IsKeeper (keeper : Keeper) : Type 0 where
  pub no_shorter :
      (now until threshold extend_to : ℕ) → until ≤ keeper.extended now until threshold extend_to
  pub extends :
      (now until threshold extend_to : ℕ)
      → until ≤ now + threshold
      → now + extend_to ≤ keeper.extended now until threshold extend_to

-- The last ledger of each entry that is there.
abbrev pub Lifetimes : Type 0 → Type 0
Lifetimes K = K → Option ℕ

-- An entry lives for `n` ledgers after `now`.
abbrev pub LivesOn : {K : Type 0} → ℕ → ℕ → K → Lifetimes K → Type 0
LivesOn now n e l = (until : ℕ) × (l e ≡ some until) × (now + n ≤ until)

-- Changes of the last ledger of one entry.
abbrev pub renew :
    {K : Type 0} → (K → K → Bool) → K → (Option ℕ → Option ℕ) → Lifetimes K → Lifetimes K
renew same e f l x = if same x e then f (l x) else l x

abbrev pub created : Keeper → ℕ → Option ℕ → Option ℕ
created keeper now o = some (unwrap_or o (keeper.first now))

abbrev pub lengthened : Keeper → ℕ → ℕ → ℕ → Option ℕ → Option ℕ
lengthened keeper now threshold extend_to none = none
lengthened keeper now threshold extend_to (some until) =
    some (keeper.extended now until threshold extend_to)

-- A write: an entry that is not there yet is created.
abbrev pub written : {K : Type 0} → (K → K → Bool) → Keeper → ℕ → K → Lifetimes K → Lifetimes K
written same keeper now e = renew same e (created keeper now)

-- A write with the extension that follows it.
abbrev pub kept_alive :
    {K : Type 0} → (K → K → Bool) → Keeper → ℕ → ℕ → ℕ → K → Lifetimes K → Lifetimes K
kept_alive same keeper now threshold extend_to e l =
    renew same e (lengthened keeper now threshold extend_to) (written same keeper now e l)

module _ {K : Type 0} (same : K → K → Bool) (keeper : Keeper) (law : IsKeeper keeper) where
  extended_enough :
      (now until threshold extend_to : ℕ)
      → threshold ≤ extend_to
      → now + threshold ≤ keeper.extended now until threshold extend_to
  extended_enough now until threshold extend_to h = elim (le-or-lt until (now + threshold)) [
    | inl few ↦ omega (arith, law.extends now until threshold extend_to few)
    | inr many ↦ omega (arith, law.no_shorter now until threshold extend_to)
  ]

  pub kept_alive-LivesOn :
      (now threshold extend_to : ℕ) (e : K) (l : Lifetimes K)
      → threshold ≤ extend_to
      → same e e ≡ true
      → LivesOn now threshold e (kept_alive same keeper now threshold extend_to e l)
  kept_alive-LivesOn now threshold extend_to e l h r =
      (_, rw r refl, extended_enough now (unwrap_or (l e) (keeper.first now)) threshold extend_to h)

  pub written_stays :
      (now n : ℕ) (e x : K) (l : Lifetimes K)
      → LivesOn now n x l
      → LivesOn now n x (written same keeper now e l)
  written_stays now n e x l (until, there, long) = elim (Bool-cases (same x e)) [
    | inl here ↦ (until, rw (here, there) refl, long)
    | inr other ↦ (until, rw (other, there) refl, long)
  ]

  -- No write makes an entry live shorter.
  pub kept_alive_stays :
      (now n threshold extend_to : ℕ) (e x : K) (l : Lifetimes K)
      → LivesOn now n x l
      → LivesOn now n x (kept_alive same keeper now threshold extend_to e l)
  kept_alive_stays now n threshold extend_to e x l (until, there, long) =
      elim (Bool-cases (same x e)) [
        | inl here ↦ (
          keeper.extended now until threshold extend_to,
          rw (here, there) refl,
          omega (arith, law.no_shorter now until threshold extend_to),
        )
        | inr other ↦ (until, rw (other, there) refl, long)
      ]

-- One key of a map is written, and its entry lives.
pub inserted :
    {K V : Type 0} (now n key k : ℕ) (v : V) (d d' : Dict V) (entry : ℕ → K) (l : Lifetimes K)
    → d' ≡ insert key v d
    → LivesOn now n (entry key) l
    → (lookup k d' ≡ lookup k d) ⊎ LivesOn now n (entry k) l
inserted now n key k v d d' entry l e alive = elim (Bool-cases (k == key)) [
  | inl here ↦ inr (rw (==→eq k key here) alive)
  | inr other ↦ inl (rw (e, lookup-insert k key v d, other) refl)
]

-- The lifetimes after a call: `after` if it went through, and else, rolled back, `l`.
abbrev pub settled :
    {S E K : Type 0} → Outcome E (Unit {0} × S) → Lifetimes K → Lifetimes K → Lifetimes K
settled r after l = if is_ok r then after else l

-- A property of the state and the lifetimes after a call.
pub settled_elim :
    {S E K : Type 0} (P : S → Lifetimes K → Type 0) (w : S) (l after : Lifetimes K)
    (r : Outcome E (Unit {0} × S))
    → P w l
    → ((w' : S) → r ≡ ok (tt, w') → P w' after)
    → P (commit w r) (settled r after l)
settled_elim P w l after (ok (u, w')) p h = h w' refl
settled_elim P w l after (err e) p h = p
settled_elim P w l after trap p h = p

-- ===== src/Stream/Solvency.antt =====
-- Each stream is well formed, its recipient has taken no more than was granted, and the vault holds
-- what the stream can still pay out.
use stellar_stream_hive_cont.Base.{
  ℕ, ◌≤◌, ◌≡◌, ◌⊎◌, refl, Bool, inl, inr, false, none, some, arith, ◌==◌, if◌then◌else◌, Bool-cases,
  ==→eq, ==-refl,
}
use mathlib.Core.Option.{some-injective}
use stellar_stream_hive_cont.Base.Int.{ℤ, pos, pos_part, ◌-ℤ◌, ◌≤ℤ◌, i128_max, int_laws}
use stellar_stream_hive_cont.Base.Dict.{lookup, insert, lookup-insert}
use stellar_stream_hive_cont.Host.{Env, Address, ok}
use stellar_stream_hive_cont.Host.Invoke.{Invoker}
use stellar_stream_hive_cont.Stream.Types.{Stream}
use stellar_stream_hive_cont.Stream.Math.{is_cancelled}
use stellar_stream_hive_cont.Stream.Storage.{World}
use stellar_stream_hive_cont.Stream.Contract.{create_stream, withdraw}
use stellar_stream_hive_cont.Stream.VaultLaws.{IsVault, TakesOut, KeepsTokens}
use stellar_stream_hive_cont.Stream.Accrual.{IsWellFormed, earned}
use stellar_stream_hive_cont.Stream.Entitled.{entitled, entitled_mono, withdraw_granted}
use stellar_stream_hive_cont.Stream.Effects.{create_stream_ok, withdraw_ok}

-- A stream at the ledger `now`, stored under `id`.
pub record IsGood (now id : ℕ) (s : Stream) : Type 0 where
  pub key : s.id ≡ id
  pub terms : IsWellFormed s
  pub taken : pos 0 ≤ℤ s.withdrawn
  pub granted : pos_part s.withdrawn ≤ entitled s now

-- What a stream may still pay out: to its recipient, and to its sender if it still runs.
abbrev pub outstanding : Stream → ℤ
outstanding s = (if is_cancelled s then pos (earned s 0) else s.total_amount) -ℤ s.withdrawn

module _ {W : Type 0} (host : Invoker W) (vault : Address) (laws : IsVault host vault) where
  -- What is known of the stream stored under `id`, beside a vault in the state `o`.
  pub record IsCovered (now id : ℕ) (s : Stream) (o : W) : Type 0 where
    pub good : IsGood now id s
    pub covered : outstanding s ≤ℤ laws.balance id o
    pub denominated : laws.token_of id o ≡ some s.token

  pub record IsSolvent (now : ℕ) (w : World W) : Type 0 where
    pub configured : (w.vault ≡ none) ⊎ (w.vault ≡ some vault)
    pub streams :
        (id : ℕ) (s : Stream) → lookup id w.streams ≡ some s → IsCovered now id s w.outside
    pub nonneg : (id : ℕ) → pos 0 ≤ℤ laws.balance id w.outside

  pub configured_is :
      (u : Address) (w : World W)
      → (w.vault ≡ none) ⊎ (w.vault ≡ some vault)
      → w.vault ≡ some u
      → u ≡ vault
  configured_is u w c e = ground arith

  pub later-IsGood :
      (now later id : ℕ) (s : Stream) → now ≤ later → IsGood now id s → IsGood later id s
  later-IsGood now later id s h g = record {
    key = g.key;
    terms = g.terms;
    taken = g.taken;
    granted = omega (arith, g.granted, entitled_mono s now later g.terms h);
  }

  pub later-IsCovered :
      (now later id : ℕ) (s : Stream) (o o' : W)
      → now ≤ later
      → laws.balance id o ≤ℤ laws.balance id o'
      → KeepsTokens laws.token_of o o'
      → IsCovered now id s o
      → IsCovered later id s o'
  later-IsCovered now later id s o o' h b k c = record {
    good = later-IsGood now later id s h c.good;
    covered = omega (arith, c.covered);
    denominated = k id s.token c.denominated;
  }

  -- Writing one stream, with the balances of the others not lowered.
  pub write-IsSolvent :
      (now later k : ℕ) (s : Stream) (w w' : World W)
      → now ≤ later
      → IsSolvent now w
      → w'.vault ≡ w.vault
      → w'.streams ≡ insert k s w.streams
      → ((i : ℕ) → (i == k) ≡ false → laws.balance i w'.outside ≡ laws.balance i w.outside)
      → KeepsTokens laws.token_of w.outside w'.outside
      → pos 0 ≤ℤ laws.balance k w'.outside
      → IsCovered later k s w'.outside
      → IsSolvent later w'
  write-IsSolvent now later k s w w' h v e f others t own c = record {
    configured = rw e v.configured;
    streams = λ i x l.
        let l' = rw (f, lookup-insert i k s w.streams) at l in
        elim (Bool-cases (i == k)) [
          | inl same ↦ let q = some-injective _ _ (rw same at l') in rw (==→eq i k same, ← q) c
          | inr other ↦
              later-IsCovered now later i x w.outside w'.outside h
                (rw (others i other) (omega arith)) t (v.streams i x (rw other at l'))
        ];
    nonneg = λ i. elim (Bool-cases (i == k)) [
      | inl same ↦ rw (==→eq i k same) own
      | inr other ↦ rw (others i other) (v.nonneg i)
    ];
  }

  pub create_stream-IsSolvent :
      (env : Env) (sender recipient token : Address) (total_amount : ℤ)
      (start_ledger end_ledger cliff_ledger : ℕ) (cancellable : Bool) (id now : ℕ) (w w' : World W)
      → now ≤ env.sequence
      → total_amount ≤ℤ pos i128_max
      → IsSolvent now w
      → create_stream host env sender recipient token total_amount start_ledger end_ledger
          cliff_ledger cancellable w
        ≡ ok (id, w')
      → IsSolvent env.sequence w'
  create_stream-IsSolvent env sender recipient token total start end cliff cancellable id now w w' h
        m v e =
      let c =
        create_stream_ok host env sender recipient token total start end cliff cancellable id w w'
          e in
      let (u, at, paid) = c.funded in
      let (adds, named, kept) =
        laws.deposit_adds env sender token total id w.outside w'.outside
          (rw (configured_is u w v.configured at) at paid) in
      write-IsSolvent now env.sequence id _ w w' h v c.vault_kept c.stored
        (λ i other. rw (adds i, other)) kept
        (rw (adds id, ==-refl id) (omega (int_laws, c.positive, v.nonneg id)))
        (record {
          good = record {
            key = refl;
            terms = record {
              positive = c.positive;
              fits = m;
              ends_later = c.ends_later;
              cliff_from = c.cliff_from;
              cliff_to = c.cliff_to;
            };
            taken = omega arith;
            granted = omega arith;
          };
          covered = rw (adds id, ==-refl id) (omega (int_laws, v.nonneg id));
          denominated = named;
        })

  -- A payout for the stream `s` that leaves the new version `s'` covered.
  pub payout-IsSolvent :
      (now later id : ℕ) (amount : ℤ) (s s' : Stream) (w w' : World W)
      → now ≤ later
      → IsSolvent now w
      → w'.vault ≡ w.vault
      → w'.streams ≡ insert s.id s' w.streams
      → s.id ≡ id
      → TakesOut laws.balance amount id w.outside w'.outside
        × KeepsTokens laws.token_of w.outside w'.outside
      → laws.token_of id w.outside ≡ some s'.token
      → IsGood later s.id s'
      → outstanding s' ≤ℤ laws.balance id w.outside -ℤ amount
      → IsSolvent later w'
  payout-IsSolvent now later id amount s s' w w' h v e f key (takes, kept) named g c =
      let t = rw (← key) at takes in
      write-IsSolvent now later s.id s' w w' h v e f (λ i other. rw (t.1 i, other)) kept
        (rw (t.1 s.id, ==-refl s.id) (omega (int_laws, t.0)))
        (record {
          good = g;
          covered = rw (t.1 s.id, ==-refl s.id) (rw (← key) at c);
          denominated = kept s.id s'.token (rw (← key) at named);
        })

  -- The same where nothing is paid.
  pub unpaid-IsSolvent :
      (now later id : ℕ) (s s' : Stream) (w w' : World W)
      → now ≤ later
      → IsSolvent now w
      → w'.vault ≡ w.vault
      → w'.streams ≡ insert s.id s' w.streams
      → s.id ≡ id
      → w'.outside ≡ w.outside
      → laws.token_of id w.outside ≡ some s'.token
      → IsGood later s.id s'
      → outstanding s' ≤ℤ laws.balance id w.outside
      → IsSolvent later w'
  unpaid-IsSolvent now later id s s' w w' h v e f key same named g c =
      write-IsSolvent now later s.id s' w w' h v e f (λ i other. rw same) (rw same (λ i t l. l))
        (rw same (v.nonneg s.id))
        (rw same
          (record { good = g; covered = rw (← key) at c; denominated = rw (← key) at named }))

  pub withdraw-IsSolvent :
      (env : Env) (recipient : Address) (stream_id : ℕ) (amount : ℤ) (now : ℕ) (w w' : World W)
      → now ≤ env.sequence
      → IsSolvent now w
      → withdraw host env recipient stream_id amount w ≡ ok (tt, w')
      → IsSolvent env.sequence w'
  withdraw-IsSolvent env recipient id amount now w w' h v e =
      let (s, d) = withdraw_ok host env recipient id amount w w' e in
      let (u, at, paid) = d.released in
      let (available, f, le) = d.allowed in
      let c = v.streams id s d.found in
      let g = later-IsGood now env.sequence id s h c.good in
      let r =
        withdraw_granted s env.sequence amount available g.terms g.taken g.granted f d.positive
          le in
      payout-IsSolvent now env.sequence id amount s _ w w' h v d.others_kept.1 d.stored g.key
        (laws.release_takes env _ _ _ amount id w.outside w'.outside
          (rw (configured_is u w v.configured at) at paid))
        c.denominated
        (record {
          key = refl;
          terms = record {
            positive = g.terms.positive;
            fits = g.terms.fits;
            ends_later = g.terms.ends_later;
            cliff_from = g.terms.cliff_from;
            cliff_to = g.terms.cliff_to;
          };
          taken = r.0;
          granted = r.1;
        })
        (omega (int_laws, c.covered))

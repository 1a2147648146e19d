-- ===== src/System/Backing.antt =====
-- The tokens of the vault, and what all streams together can still pay out.
use stellar_stream_hive_cont.Base.{
  ℕ, ◌≡◌, refl, inl, inr, some, [], ◌∷◌, ◌==◌, arith, Bool-cases, ==→eq, ==-refl, if◌then◌else◌,
}
use stellar_stream_hive_cont.Base.Int.{ℤ, pos, ◌+ℤ◌, ◌≤ℤ◌, int_laws, parts_of_eq}
use stellar_stream_hive_cont.Base.Dict.{
  Dict, lookup, insert, lookup-insert, lookup-tail, AllDistinct, unwrap_or,
}
use stellar_stream_hive_cont.Host.{Env, Address}
use stellar_stream_hive_cont.Host.Invoke.{Invoker}
use stellar_stream_hive_cont.Host.Token.{TokenClient, IsToken}
use stellar_stream_hive_cont.Vault.Storage
use stellar_stream_hive_cont.Vault.Storage.{get_total_locked}
use stellar_stream_hive_cont.Vault.Accounting.{
  locked_sum, locked_sum-insert, locked_sum-nonneg, AllNonneg, insert-AllNonneg,
}
use stellar_stream_hive_cont.Stream.Types.{Stream}
use stellar_stream_hive_cont.Stream.Storage.{World}
use stellar_stream_hive_cont.Stream.Solvency.{outstanding}
use stellar_stream_hive_cont.Stream.Listing.{Ran-IsListed}
use stellar_stream_hive_cont.System.Deployment.{IsDeployed, deployed_vault}
use stellar_stream_hive_cont.System.Steps.{Reachable}
use stellar_stream_hive_cont.System.Solvency.{Reachable-IsSound}
use stellar_stream_hive_cont.System.Conservation.{Reachable-Ran}

-- What all streams in one token can still pay out, to their recipients and senders together.
abbrev pub owed_in : Address → Dict Stream → ℤ
owed_in token [] = pos 0
owed_in token ((id, s) ∷ d) = (if s.token == token then outstanding s else pos 0) +ℤ owed_in token d

-- Streams of the vault whose balances cover them.
abbrev AreCovered : Dict Stream → Dict Address → Dict ℤ → Type 0
AreCovered streams tokens balances =
    (id : ℕ) (s : Stream)
    → lookup id streams ≡ some s
    → (lookup id tokens ≡ some s.token) × (outstanding s ≤ℤ unwrap_or (lookup id balances) (pos 0))

-- The rest of the streams is covered without the balance of the first.
rest-AreCovered :
    (id : ℕ) (s : Stream) (d : Dict Stream) (tokens : Dict Address) (balances : Dict ℤ)
    → AllDistinct ((id, s) ∷ d)
    → AreCovered ((id, s) ∷ d) tokens balances
    → AreCovered d tokens (insert id (pos 0) balances)
rest-AreCovered id s d tokens balances h c j x l =
    let (named, covered) = c j x (lookup-tail j x (id, s) d h l) in
    (
      named,
      elim (Bool-cases (j == id)) [
        | inl same ↦ absurd (ground (arith, h.0, ==→eq j id same))
        | inr other ↦ rw (lookup-insert j id (pos 0) balances, other) covered
      ],
    )

owed_in-locked_sum :
    (token : Address) (d : Dict Stream) (tokens : Dict Address) (balances : Dict ℤ)
    → AllDistinct d
    → AllNonneg balances
    → AreCovered d tokens balances
    → owed_in token d ≤ℤ locked_sum tokens token balances
owed_in-locked_sum token [] tokens balances h n c = locked_sum-nonneg tokens token balances n
owed_in-locked_sum token ((id, s) ∷ d) tokens balances h n c =
    let (named, covered) = c id s (rw (==-refl id) refl) in
    let rest =
      owed_in-locked_sum token d tokens (insert id (pos 0) balances) h.1
        (insert-AllNonneg id (pos 0) balances n (omega arith))
        (rest-AreCovered id s d tokens balances h c) in
    let sums = rw named at (locked_sum-insert tokens token id (pos 0) balances) in
    elim (Bool-cases (s.token == token)) [
      | inl same ↦
          let sums' = rw same at sums in
          rw same (omega (int_laws, parts_of_eq sums', rest, covered))
      | inr other ↦
          let sums' = rw other at sums in rw other (omega (int_laws, parts_of_eq sums', rest))
    ]

module _ {T : Type 0} (client : TokenClient T) (law : IsToken client)
    (host : Invoker (Storage.World T)) (self vault : Address) (callee : Env → Env)
    (deployment : IsDeployed client host vault callee) where
  -- The stream contract and the vault deployed together, over a token contract whose transfers
  -- move the amount, with none of the vault's token balances below 0 at first. Whatever sequence
  -- of calls anybody makes of the stream contract, which is set up with this vault and gets
  -- deposits that are i128 numbers, of direct calls anybody but the two contracts makes of the
  -- vault, whose admin never names another stream contract, and of movements of tokens that do
  -- not lower the vault's balances, with nothing authorized by the vault itself: for each token,
  -- what all streams in it can still pay out is together at most the vault's total locked of it,
  -- and that is at most the vault's balance at the token contract.
  pub tokens_cover :
      (t : T) (now : ℕ) (w : World (Storage.World T)) (token : Address)
      → ((a : Address) → pos 0 ≤ℤ client.balance a vault t)
      → Reachable client host self vault callee t now w
      → (owed_in token w.streams ≤ℤ get_total_locked token w.outside)
        × (get_total_locked token w.outside ≤ℤ client.balance token vault w.outside.tokens)
  unfolding deployed_vault
  tokens_cover t now w token h r =
      let sound = Reachable-IsSound client law host self vault callee deployment t now w h r in
      let accounts = sound.safe.custodian.accounted in
      let listed =
        Ran-IsListed host (Storage.deployed t) w
          (Reachable-Ran client law host self vault callee deployment t now w r) in
      (
        rw (accounts.summed token) (
            owed_in-locked_sum token w.streams w.outside.stream_token w.outside.stream_balance
              listed.distinct accounts.nonneg
              (λ id s l. let c = sound.solvent.streams id s l in (c.denominated, c.covered))),
        sound.safe.custodian.covered token,
      )

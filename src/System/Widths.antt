-- ===== src/System/Widths.antt =====
-- The sizes of the numbers that both contracts store.
use stellar_stream_hive_cont.Base.{ℕ, ◌≤◌, Option, none, some, arith, inl, inr, Option-cases}
use stellar_stream_hive_cont.Base.Int.{ℤ, pos, ◌≤ℤ◌, i128_max, int_laws, parts_apart}
use stellar_stream_hive_cont.Base.Dict.{lookup}
use stellar_stream_hive_cont.Host.{Env, Address}
use stellar_stream_hive_cont.Host.Invoke.{Invoker}
use stellar_stream_hive_cont.Host.Token.{TokenClient, IsToken}
use stellar_stream_hive_cont.Vault.Storage
use stellar_stream_hive_cont.Vault.Storage.{get_stream_balance, get_total_locked}
use stellar_stream_hive_cont.Vault.Accounting.{
  balance-le-locked_sum, locked_sum-nonneg, lookup-nonneg,
}
use stellar_stream_hive_cont.Vault.Invariant.{IsAccounted}
use stellar_stream_hive_cont.Stream.Types.{Stream}
use stellar_stream_hive_cont.Stream.Storage.{World, current_id, u64_max}
use stellar_stream_hive_cont.Stream.Entitled.{entitled-le}
use stellar_stream_hive_cont.Stream.Solvency.{IsGood}
use stellar_stream_hive_cont.Stream.Listing.{Ran-IsListed}
use stellar_stream_hive_cont.Stream.Numbering.{Ran-counter}
use stellar_stream_hive_cont.System.Deployment.{IsDeployed}
use stellar_stream_hive_cont.System.Steps.{Reachable}
use stellar_stream_hive_cont.System.Solvency.{Reachable-IsSound}
use stellar_stream_hive_cont.System.Conservation.{Reachable-Ran}

-- An i128 that is not negative.
abbrev pub IsAmount : ℤ → Type 0
IsAmount a = (pos 0 ≤ℤ a) × (a ≤ℤ pos i128_max)

-- What is stored under an id: the id is a u64, and the amounts are.
abbrev pub Fits : ℕ → Option Stream → Type 0
Fits id none = Unit {0}
Fits id (some s) =
    (id ≤ u64_max)
    × IsAmount s.total_amount
    × IsAmount s.withdrawn
    × (s.withdrawn ≤ℤ s.total_amount)

good-Fits : (now id : ℕ) (s : Stream) → IsGood now id s → id ≤ u64_max → Fits id (some s)
good-Fits now id s g h =
    let most = entitled-le s now g.terms in
    let le : s.withdrawn ≤ℤ s.total_amount =
      omega (arith, g.granted, g.taken, parts_apart s.withdrawn) in
    let v = g.terms in
    (h, (omega (arith, v.positive), v.fits), (g.taken, omega (arith, v.fits)), le)

total-IsAmount :
    {T : Type 0} (w : Storage.World T) (token : Address)
    → IsAccounted w
    → IsAmount (get_total_locked token w)
total-IsAmount w token v =
    let low = locked_sum-nonneg w.stream_token token w.stream_balance v.nonneg in
    (rw (v.summed token) low, v.bounded token)

balance-IsAmount :
    {T : Type 0} (w : Storage.World T) (id : ℕ) → IsAccounted w → IsAmount (get_stream_balance id w)
balance-IsAmount w id v = elim (Option-cases (lookup id w.stream_token)) [
  | inl unfunded ↦ rw (v.funded id unfunded) (omega arith, omega arith)
  | inr (token, known) ↦
      let least = balance-le-locked_sum w.stream_token token id w.stream_balance known v.nonneg in
      let bounded = rw (v.summed token) at (v.bounded token) in
      (lookup-nonneg id w.stream_balance v.nonneg, omega (int_laws, least, bounded))
]

module _ {T : Type 0} (client : TokenClient T) (law : IsToken client)
    (host : Invoker (Storage.World T)) (self vault : Address) (callee : Env → Env)
    (deployment : IsDeployed client host vault callee) where
  -- The stream contract and the vault deployed together, over a token contract whose transfers
  -- move the amount, with none of the vault's token balances below 0 at first. Whatever sequence
  -- of calls anybody makes of the stream contract, which is set up with this vault and gets
  -- deposits that are i128 numbers, of direct calls anybody but the two contracts makes of the
  -- vault, whose admin never names another stream contract, and of movements of tokens that do
  -- not lower the vault's balances, with nothing authorized by the vault itself: the counter of
  -- ids and each id with a stream are u64 numbers; the deposit of a stream and what was withdrawn
  -- from it, the vault's balance of each stream and its total of each token are i128 numbers and
  -- not negative; and no more was withdrawn than deposited.
  pub numbers_fit :
      (t : T) (now : ℕ) (w : World (Storage.World T)) (id : ℕ) (token : Address)
      → ((a : Address) → pos 0 ≤ℤ client.balance a vault t)
      → Reachable client host self vault callee t now w
      → (current_id w ≤ u64_max)
        × Fits id (lookup id w.streams)
        × IsAmount (get_stream_balance id w.outside)
        × IsAmount (get_total_locked token w.outside)
  numbers_fit t now w id token h r =
      let sound = Reachable-IsSound client law host self vault callee deployment t now w h r in
      let accounts = sound.safe.custodian.accounted in
      let ran = Reachable-Ran client law host self vault callee deployment t now w r in
      let few = Ran-counter host (Storage.deployed t) w ran in
      (
        few,
        elim (Option-cases (lookup id w.streams)) [
          | inl missing ↦ rw missing tt
          | inr (s, found) ↦
              let issued = (Ran-IsListed host (Storage.deployed t) w ran).issued id s found in
              rw found (
                good-Fits now id s (sound.solvent.streams id s found).good
                  (omega (arith, issued, few)))
        ],
        balance-IsAmount w.outside id accounts,
        total-IsAmount w.outside token accounts,
      )

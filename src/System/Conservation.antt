-- ===== src/System/Conservation.antt =====
-- What the vault holds for each stream, to the unit.
use stellar_stream_hive_cont.Base.{
  ℕ, ◌≡◌, ◌≢◌, refl, ◌∙◌, inl, inr, false, ◌&&◌, ◌==◌, arith, Bool-cases, if◌then◌else◌,
}
use stellar_stream_hive_cont.Base.Int.{ℤ, pos, ◌+ℤ◌, ◌-ℤ◌, ◌≤ℤ◌, int_laws, eq_of_parts, parts_of_eq}
use stellar_stream_hive_cont.Base.Dict.{lookup}
use stellar_stream_hive_cont.Host.{Env, Address, Outcome, ok, err, trap, is_ok, commit, commit_elim}
use stellar_stream_hive_cont.Host.Invoke.{Invoker}
use stellar_stream_hive_cont.Host.Token.{TokenClient, IsToken}
use stellar_stream_hive_cont.Vault.Types.{VaultError, PayoutKind}
use stellar_stream_hive_cont.Vault.Storage
use stellar_stream_hive_cont.Vault.Storage.{get_stream_balance}
use stellar_stream_hive_cont.Vault.Contract
use stellar_stream_hive_cont.Vault.Contract.{deposit, authorize_and_pay}
use stellar_stream_hive_cont.Vault.Effects.{authorize_and_pay_ok}
use stellar_stream_hive_cont.Vault.Steps
use stellar_stream_hive_cont.Stream.Storage.{World}
use stellar_stream_hive_cont.Stream.VaultLaws.{PutsIn}
use stellar_stream_hive_cont.Stream.Conservation.{due, invoke-surplus}
use stellar_stream_hive_cont.Stream.Steps.{invoke, Ran}
use stellar_stream_hive_cont.Stream.Listing.{Ran-IsListed}
use stellar_stream_hive_cont.System.Deployment.{
  IsDeployed, deployed_vault, deposit_lays, release_pays, refund_pays,
}
use stellar_stream_hive_cont.System.Strangers.{IsBound}
use stellar_stream_hive_cont.System.Steps.{streams, vaults, tokens, Reachable, start, next}
use stellar_stream_hive_cont.System.Solvency.{Reachable-IsSound}

zero_added : (a : ℤ) → a ≡ a +ℤ pos 0
zero_added a = eq_of_parts _ _ (omega int_laws)

module _ {T : Type 0} (client : TokenClient T) where
  -- What a direct call of the vault adds to the balance of a stream.
  abbrev pub donation : Env → Steps.Call → Storage.World T → ℕ → ℤ
  donation env (Steps.deposit from token amount i) o id =
      if is_ok (deposit client env from token amount i o) && id == i then amount else pos 0
  donation env _ o id = pos 0

  deposit-donation :
      (amount : ℤ) (i id : ℕ) (o : Storage.World T)
      (r : Outcome VaultError (Unit {0} × Storage.World T))
      → ((o' : Storage.World T) → r ≡ ok (tt, o') → PutsIn get_stream_balance amount i o o')
      → get_stream_balance id (commit o r)
        ≡ get_stream_balance id o +ℤ (if is_ok r && id == i then amount else pos 0)
  deposit-donation amount i id o (ok (u, o')) adds = elim (Bool-cases (id == i)) [
    | inl same ↦ rw (adds o' refl id, same) refl
    | inr other ↦ rw (adds o' refl id, other) (zero_added (get_stream_balance id o))
  ]
  deposit-donation amount i id o (err e) adds = zero_added (get_stream_balance id o)
  deposit-donation amount i id o trap adds = zero_added (get_stream_balance id o)

  -- A call that leaves the balance alone if it goes through.
  unchanged :
      (id : ℕ) (o : Storage.World T) (r : Outcome VaultError (Unit {0} × Storage.World T))
      → ((o' : Storage.World T) → r ≡ ok (tt, o') → o'.stream_balance ≡ o.stream_balance)
      → get_stream_balance id (commit o r) ≡ get_stream_balance id o +ℤ pos 0
  unchanged id o r kept =
      commit_elim (λ o'. get_stream_balance id o' ≡ get_stream_balance id o +ℤ pos 0) o r
        (zero_added (get_stream_balance id o))
        (λ o' run. rw (kept o' run) (zero_added (get_stream_balance id o)))

  -- No payout for anybody but the contract that the vault trusts goes through.
  stranger_refused :
      (self : Address) (env : Env) (caller to token : Address) (amount : ℤ) (i : ℕ)
      (kind : PayoutKind) (o o' : Storage.World T)
      → IsBound self o
      → env.authorizes self ≡ false
      → authorize_and_pay client env caller to token amount i kind o ≢ ok (tt, o')
  stranger_refused self env caller to token amount i kind o o' b mute run =
      let d = authorize_and_pay_ok client env caller to token amount i kind o o' run in
      let trusted = d.trusted in let signed = d.signed in absurd (ground arith)

  -- A direct call of the vault in which the contract that it trusts has authorized nothing.
  stranger-donation :
      (self : Address) (env : Env) (c : Steps.Call) (o : Storage.World T) (id : ℕ)
      → IsBound self o
      → env.authorizes self ≡ false
      → get_stream_balance id (commit o (Steps.invoke client env c o))
        ≡ get_stream_balance id o +ℤ donation env c o id
  unfolding Steps.invoke Contract.initialize Contract.set_stream_contract
  stranger-donation self env (Steps.initialize admin contract) o id b mute =
      unchanged id o (Contract.initialize env admin contract o) (λ o' run. ground arith)
  stranger-donation self env (Steps.set_stream_contract admin contract) o id b mute =
      unchanged id o (Contract.set_stream_contract env admin contract o) (λ o' run. ground arith)
  stranger-donation self env (Steps.deposit from token amount i) o id b mute =
      deposit-donation amount i id o (deposit client env from token amount i o)
        (λ o' run. (deposit_lays client env from token amount i o o' run).0)
  stranger-donation self env (Steps.release caller to token amount i) o id b mute =
      unchanged id o (Contract.release client env caller to token amount i o) (λ o' run. absurd (
        stranger_refused self env caller to token amount i PayoutKind.release o o' b mute
          (release_pays client env caller to token amount i o o' run)))
  stranger-donation self env (Steps.refund caller to token amount i) o id b mute =
      unchanged id o (Contract.refund client env caller to token amount i o) (λ o' run. absurd (
        stranger_refused self env caller to token amount i PayoutKind.refund o o' b mute
          (refund_pays client env caller to token amount i o o' run)))

regrouped : (a b c x y : ℤ) → b -ℤ y ≡ a -ℤ x → a ≡ x +ℤ c → b ≡ y +ℤ c
regrouped a b c x y e f = eq_of_parts _ _ (omega (int_laws, parts_of_eq e, parts_of_eq f))

added : (a x c e : ℤ) → a ≡ x +ℤ c → a +ℤ e ≡ x +ℤ (c +ℤ e)
added a x c e f = eq_of_parts _ _ (omega (int_laws, parts_of_eq f))

module _ {T : Type 0} (client : TokenClient T) (law : IsToken client)
    (host : Invoker (Storage.World T)) (self vault : Address) (callee : Env → Env)
    (deployment : IsDeployed client host vault callee) where
  abbrev Reached : T → ℕ → World (Storage.World T) → Type 0
  Reached = Reachable client host self vault callee

  -- What direct calls of the vault have added to the balance of a stream so far.
  unfoldable pub donated : {t : T} {n : ℕ} {w : World (Storage.World T)} → Reached t n w → ℕ → ℤ
  donated (start now) id = pos 0
  donated (next r (streams env c later at h from mute a)) id = donated r id
  donated (next {v} r (vaults env c later h here mute quiet b)) id =
      donated r id +ℤ donation client env c v.outside id
  donated (next r (tokens t later h b)) id = donated r id

  pub Reachable-Ran :
      (t : T) (now : ℕ) (w : World (Storage.World T))
      → Reached t now w
      → Ran host (Storage.deployed t) w
  Reachable-Ran t _ _ (start now) = Ran.start
  Reachable-Ran t _ _ (next {v} r (streams env c later at h from mute a)) =
      Ran.call (Reachable-Ran t _ v r) env c
  Reachable-Ran t _ _ (next {v} r (vaults env c later h here mute quiet b)) =
      Ran.elsewhere (Reachable-Ran t _ v r) _
  Reachable-Ran t _ _ (next {v} r (tokens u later h b)) = Ran.elsewhere (Reachable-Ran t _ v r) _

  -- The stream contract and the vault deployed together, over a token contract whose transfers
  -- move the amount, with none of the vault's token balances below 0 at first. Whatever sequence
  -- of calls anybody makes of the stream contract, which is set up with this vault and gets
  -- deposits that are i128 numbers, of direct calls anybody but the two contracts makes of the
  -- vault, whose admin never names another stream contract, and of movements of tokens that do
  -- not lower the vault's balances, with nothing authorized by the vault itself: the vault's
  -- balance of each stream is exactly what the stream can still pay out, which is 0 where there
  -- is no stream, and what those direct calls have deposited for it.
  pub balance-due :
      (t : T) (now : ℕ) (w : World (Storage.World T))
      → ((token : Address) → pos 0 ≤ℤ client.balance token vault t)
      → (r : Reached t now w) (id : ℕ)
      → get_stream_balance id w.outside ≡ due (lookup id w.streams) +ℤ donated r id
  unfolding donated deployed_vault
  balance-due t _ _ h (start now) id = zero_added (pos 0)
  balance-due t _ _ h (next {n} {v} r (streams env c later at le from mute a)) id =
      let sound = Reachable-IsSound client law host self vault callee deployment t n v h r in
      let i = balance-due t n v h r id in
      commit_elim
        (λ w'. get_stream_balance id w'.outside ≡ due (lookup id w'.streams) +ℤ donated r id) v
        (invoke host env c v) i
        (λ w' run.
          regrouped (get_stream_balance id v.outside) (get_stream_balance id w'.outside)
            (donated r id) (due (lookup id v.streams)) (due (lookup id w'.streams))
            (invoke-surplus host vault (deployed_vault client host vault callee deployment) env c n
              id v w' sound.solvent
              (Ran-IsListed host (Storage.deployed t) v (Reachable-Ran t n v r)) run)
            i)
  balance-due t _ _ h (next {n} {v} r (vaults env c later le here mute quiet b)) id =
      let sound = Reachable-IsSound client law host self vault callee deployment t n v h r in
      stranger-donation client self env c v.outside id sound.safe.bound mute
      ∙ added (get_stream_balance id v.outside) (due (lookup id v.streams)) (donated r id)
          (donation client env c v.outside id) (balance-due t n v h r id)
  balance-due t _ _ h (next {n} {v} r (tokens u later le b)) id = balance-due t n v h r id

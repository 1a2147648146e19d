-- ===== src/System/Creating.antt =====
-- A sender can always create a stream with admitted terms.
use stellar_stream_hive_cont.Base.{
  ℕ, ◌+◌, ◌≤◌, ◌<◌, ◌≡◌, ◌⊎◌, refl, sym, Bool, true, false, none, some, ==-refl,
}
use mathlib.Core.Path.{subst}
use stellar_stream_hive_cont.Base.Int.{ℤ, pos, ◌+ℤ◌, ◌≤ℤ◌, i128_max}
use stellar_stream_hive_cont.Base.Dict.{lookup, lookup-insert, unwrap_or}
use stellar_stream_hive_cont.Host.{Env, Address, ok}
use stellar_stream_hive_cont.Host.Invoke.{Invoker}
use stellar_stream_hive_cont.Host.Token.{TokenClient, IsToken}
use stellar_stream_hive_cont.Vault.Storage
use stellar_stream_hive_cont.Vault.Storage.{get_stream_balance, get_total_locked}
use stellar_stream_hive_cont.Vault.Refinement.{deposit_available}
use stellar_stream_hive_cont.Stream.Storage.{World, current_id, u64_max}
use stellar_stream_hive_cont.Stream.Contract.{create_stream}
use stellar_stream_hive_cont.Stream.Effects.{new_stream}
use stellar_stream_hive_cont.Stream.Creatable.{create_succeeds}
use stellar_stream_hive_cont.System.Deployment.{IsDeployed, deposit_lays, token_of}
use stellar_stream_hive_cont.System.Solvency.{IsSound}

module _ {T : Type 0} (client : TokenClient T) (law : IsToken client)
    (host : Invoker (Storage.World T)) (self vault : Address) (callee : Env → Env)
    (deployment : IsDeployed client host vault callee) where
  -- In a state of the deployed system in which `IsSound` holds, as it does in each that can be
  -- reached, a creation with a positive deposit, a start before the end and a cliff between them, by a
  -- sender who has authorized the call and, through it, the deposit, goes through, if the contract is
  -- set up with the vault and not paused, the ids are not used up, the vault has no other token for
  -- the new id, the token contract makes the transfer and the token's total stays an i128. It stores
  -- the stream under the next id, with the status pending, raises the vault's balance for that id by
  -- the deposit and fixes its token.
  pub create_available :
      (env : Env) (sender recipient token : Address) (total : ℤ) (first last cliff : ℕ)
      (cancellable : Bool) (now : ℕ) (t : T) (w : World (Storage.World T))
      → IsSound client law host self vault callee deployment now w
      → env.authorizes sender ≡ true
      → (callee env).authorizes sender ≡ true
      → unwrap_or w.paused false ≡ false
      → pos 1 ≤ℤ total
      → first < last
      → first ≤ cliff
      → cliff ≤ last
      → w.vault ≡ some vault
      → current_id w < u64_max
      → (lookup (current_id w + 1) w.outside.stream_token ≡ none)
        ⊎ (lookup (current_id w + 1) w.outside.stream_token ≡ some token)
      → client.transfer (callee env) token sender vault total w.outside.tokens ≡ some t
      → get_total_locked token w.outside +ℤ total ≤ℤ pos i128_max
      → let id = current_id w + 1 in
        (w' : World (Storage.World T)) × (create_stream host env sender recipient token total first
            last cliff cancellable w
          ≡ ok (id, w'))
        × (lookup id w'.streams
            ≡ some (new_stream env id sender recipient token total first last cliff cancellable))
        × (get_stream_balance id w'.outside ≡ get_stream_balance id w.outside +ℤ total)
        × (token_of id w'.outside ≡ some token)
  create_available env sender recipient token total first last cliff cancellable now t w sound a b p
        q l c d v n fits paid room =
      let id = current_id w + 1 in
      let (o, run) =
        deposit_available client (callee env) sender token total id w.outside t
          sound.safe.custodian.accounted q b fits
          (subst (λ x. client.transfer (callee env) token sender x total w.outside.tokens ≡ some t)
            (sym (deployment.here env)) paid)
          room in
      let call = deployment.runs_deposit env sender token total id w.outside in
      let (raised, fixed, _) =
        deposit_lays client (callee env) sender token total id w.outside o run in
      (
        _,
        create_succeeds host env sender recipient token total first last cliff cancellable vault o w
            a p q l c d v n (rw (call, run) refl),
        rw (lookup-insert id id _ w.streams, ==-refl id) refl,
        rw (raised id, ==-refl id) refl,
        fixed,
      )

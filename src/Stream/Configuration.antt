-- ===== src/Stream/Configuration.antt =====
-- Who can change the configuration of the stream contract.
use stellar_stream_hive_cont.Base.{
  ℕ, ◌≡◌, refl, ◌⊎◌, inl, inr, true, none, some, arith, Option-cases,
}
use stellar_stream_hive_cont.Base.Int.{ℤ}
use stellar_stream_hive_cont.Host.{Env, Address, ok, commit, commit_elim}
use stellar_stream_hive_cont.Host.Invoke.{Invoker}
use stellar_stream_hive_cont.Stream.Storage.{World}
use stellar_stream_hive_cont.Stream.Contract.{
  initialize, pause, unpause, transfer_admin, create_stream, withdraw, withdraw_max,
}
use stellar_stream_hive_cont.Stream.Effects.{create_stream_ok, withdraw_ok}
use stellar_stream_hive_cont.Stream.CancelEffect.{cancel_stream_ok}
use stellar_stream_hive_cont.Stream.Reach.{withdraw_max_ok, discard_ok}
use stellar_stream_hive_cont.Stream.Steps.{Call, invoke}

module _ {W : Type 0} where
  -- Nothing is changed.
  abbrev pub SettingsKept : World W → World W → Type 0
  SettingsKept w w' = (w'.admin ≡ w.admin) × (w'.vault ≡ w.vault) × (w'.paused ≡ w.paused)

  -- The setup, by an admin who has authorized it.
  abbrev pub SetUp : Env → World W → World W → Type 0
  SetUp env w w' =
      (w.admin ≡ none)
      × (w'.paused ≡ w.paused)
      × ((a : Address) × (w'.admin ≡ some a) × (env.authorizes a ≡ true))

  -- A change by the admin, after which there is an admin who has authorized it as well.
  abbrev pub Administered : Env → World W → World W → Type 0
  Administered env w w' =
      (w'.vault ≡ w.vault)
      × ((a : Address) × (w.admin ≡ some a) × (env.authorizes a ≡ true))
      × ((b : Address) × (w'.admin ≡ some b) × (env.authorizes b ≡ true))

module _ {W : Type 0} (host : Invoker W) where
  abbrev Allowed : Env → World W → World W → Type 0
  Allowed env w w' = SettingsKept w w' ⊎ SetUp env w w' ⊎ Administered env w w'

  withdraw-kept :
      (env : Env) (recipient : Address) (id : ℕ) (amount : ℤ) (w w' : World W)
      → withdraw host env recipient id amount w ≡ ok (tt, w')
      → SettingsKept w w'
  withdraw-kept env recipient id amount w w' run =
      let (s, d) = withdraw_ok host env recipient id amount w w' run in
      let (a, v, p, _, _, _) = d.others_kept in (a, v, p)

  invoke-Allowed :
      (env : Env) (c : Call) (w w' : World W) → invoke host env c w ≡ ok (tt, w') → Allowed env w w'
  unfolding invoke initialize pause unpause transfer_admin
  invoke-Allowed env (Call.initialize admin vault) w w' run =
      inr (inl (ground arith, ground arith, (admin, ground arith, ground arith)))
  invoke-Allowed env Call.pause w w' run = elim (Option-cases w.admin) [
    | inl e ↦ absurd (ground arith)
    | inr (a, e) ↦ inr (inr (ground arith, (a, e, ground arith), (a, ground arith, ground arith)))
  ]
  invoke-Allowed env Call.unpause w w' run = elim (Option-cases w.admin) [
    | inl e ↦ absurd (ground arith)
    | inr (a, e) ↦ inr (inr (ground arith, (a, e, ground arith), (a, ground arith, ground arith)))
  ]
  invoke-Allowed env (Call.transfer_admin new_admin) w w' run = elim (Option-cases w.admin) [
    | inl e ↦ absurd (ground arith)
    | inr (a, e) ↦
        inr (inr (ground arith, (a, e, ground arith), (new_admin, ground arith, ground arith)))
  ]
  invoke-Allowed env (Call.create_stream sender recipient token total first last cliff cancellable)
        w w' run =
      let (new, run') =
        discard_ok
          (create_stream host env sender recipient token total first last cliff cancellable) w w'
          run in
      let d =
        create_stream_ok host env sender recipient token total first last cliff cancellable new w w'
          run' in
      inl (d.admin_kept, d.vault_kept, d.paused_kept)
  invoke-Allowed env (Call.withdraw recipient id amount) w w' run =
      inl (withdraw-kept env recipient id amount w w' run)
  invoke-Allowed env (Call.withdraw_max recipient id) w w' run =
      let (amount, run') = discard_ok (withdraw_max host env recipient id) w w' run in
      elim (withdraw_max_ok host env recipient id amount w w' run') [
        | inl (none_left, same) ↦ inl (rw same (refl, refl, refl))
        | inr taken ↦ inl (withdraw-kept env recipient id amount w w' taken)
      ]
  invoke-Allowed env (Call.cancel_stream sender id) w w' run =
      let (s, streamed, d) = cancel_stream_ok host env sender id w w' run in
      let (a, v, p, _, _, _) = d.others_kept in inl (a, v, p)

  -- Any call keeps the admin, the vault and the pause flag; or there was no admin, the flag is kept
  -- and the new admin has authorized the call; or the vault is kept, and the admin has authorized
  -- the call and so has the admin after it.
  pub settings_change-Administered :
      (env : Env) (c : Call) (w : World W)
      → let w' = commit w (invoke host env c w) in
        SettingsKept w w' ⊎ SetUp env w w' ⊎ Administered env w w'
  settings_change-Administered env c w =
      commit_elim (Allowed env w) w (invoke host env c w) (inl (refl, refl, refl))
        (invoke-Allowed env c w)

-- ===== src/System/Tests/Payments.antt =====
-- The theorems on the tokens that move and on calls that go through, at a concrete system.
use stellar_stream_hive_cont.Base.{◌≡◌, refl, inl, some, false, arith}
use stellar_stream_hive_cont.Base.Int.{
  ℤ, pos, ◌+ℤ◌, ◌-ℤ◌, ◌*ℤ◌, ◌≤ℤ◌, checked_add, checked_sub, checked_mul, checked_div,
}
use stellar_stream_hive_cont.Base.Dict.{lookup}
use stellar_stream_hive_cont.Host.{Env, ok, commit}
use stellar_stream_hive_cont.Fixtures.{
  rich, bank, bank-IsToken, vault_address, stream_address, signed_by_7, callee, ledger,
  ledger-IsDeployed,
}
use stellar_stream_hive_cont.Vault.Storage.{get_stream_balance, get_total_locked}
use stellar_stream_hive_cont.Vault.Steps
use stellar_stream_hive_cont.Vault.Contract.{
  initialize as set_up_vault, deposit, release, authorize_and_pay,
}
use stellar_stream_hive_cont.Stream.Types.{Stream}
use stellar_stream_hive_cont.Stream.Math.{
  streamed_amount, withdrawable_amount, unwithdrawn, accrue, compute_status,
}
use stellar_stream_hive_cont.Stream.Contract
use stellar_stream_hive_cont.Stream.Contract.{create_stream, withdraw, withdraw_max, cancel_stream}
use stellar_stream_hive_cont.Stream.CancelEffect.{stopped}
use stellar_stream_hive_cont.Stream.Effects.{new_stream}
use stellar_stream_hive_cont.Stream.Steps.{Call, invoke}
use stellar_stream_hive_cont.System.Deployment.{deployed_vault, token_of}
use stellar_stream_hive_cont.Stream.Conservation.{due}
use stellar_stream_hive_cont.System.Backing.{owed_in, tokens_cover}
use stellar_stream_hive_cont.System.Conservation.{donated, balance-due}
use stellar_stream_hive_cont.System.Steps.{Reachable, next, vaults}
use stellar_stream_hive_cont.System.Cancelling.{cancel_available}
use stellar_stream_hive_cont.System.Creating.{create_available}
use stellar_stream_hive_cont.System.Flow.{Moved}
use stellar_stream_hive_cont.System.Settling.{paid_in_full}
use stellar_stream_hive_cont.System.Outcomes.{payments_end}
use mathlib.Core.Option.{some-injective}
use mathlib.Core.Path.{subst}
use stellar_stream_hive_cont.Stream.Accrual.{HasRoom}
use stellar_stream_hive_cont.Stream.Types.{unauthorized, exceeds_withdrawable}
use stellar_stream_hive_cont.Host.{Address, value_of, err}
use stellar_stream_hive_cont.Fixtures.{Balances}
use stellar_stream_hive_cont.Base.Int.{leb_ℤ}
use stellar_stream_hive_cont.System.Widths.{IsAmount, Fits, numbers_fit}
use stellar_stream_hive_cont.Stream.Storage.{current_id, u64_max}
use stellar_stream_hive_cont.Base.{inr, ◌≤◌, true}
use stellar_stream_hive_cont.System.Transfers.{invoke-Transfers}
use stellar_stream_hive_cont.System.Tests.{
  S, running, granted, by_8, running-IsSound, running_reached,
}

abbrev by_7 : Env
by_7 = signed_by_7 stream_address 15

cancel_available_example :
    (w' : S) × (cancel_stream ledger by_7 7 1 running ≡ ok (tt, w'))
    × (lookup 1 w'.streams ≡ some (stopped granted 15))
    × (get_stream_balance 1 w'.outside ≡ pos 50)
    × (withdrawable_amount (stopped granted 15) 25 ≡ ok (pos 50))
    × (pos 0 +ℤ pos 50 +ℤ pos 50 ≡ pos 100)
unfolding Steps.invoke invoke deployed_vault checked_add checked_sub ◌+ℤ◌ ◌-ℤ◌ set_up_vault
    Contract.initialize create_stream deposit
cancel_available_example =
    cancel_available bank bank-IsToken ledger stream_address vault_address callee ledger-IsDeployed
      by_7 granted 1 5 25 _ running running-IsSound (omega arith) refl refl refl refl (omega arith)
      refl refl (λ e. cc) (omega arith) refl

create_available_example :
    (w' : S) × (create_stream ledger by_7 7 9 3 (pos 40) 20 30 25 false running ≡ ok (2, w'))
    × (lookup 2 w'.streams ≡ some (new_stream by_7 2 7 9 3 (pos 40) 20 30 25 false))
    × (get_stream_balance 2 w'.outside ≡ pos 40)
    × (token_of 2 w'.outside ≡ some 3)
unfolding Steps.invoke invoke deployed_vault checked_add checked_sub ◌+ℤ◌ ◌-ℤ◌ set_up_vault
    Contract.initialize create_stream deposit
create_available_example =
    create_available bank bank-IsToken ledger stream_address vault_address callee ledger-IsDeployed
      by_7 7 9 3 (pos 40) 20 30 25 false 5 _ running running-IsSound refl refl refl (omega arith)
      (omega arith) (omega arith) (omega arith) refl (omega arith) (inl refl) refl (omega arith)

-- The bank makes each transfer that the vault's account covers.
bank_pays :
    (w : S) (token to : Address) (n : ℤ)
    → pos 1 ≤ℤ n
    → n ≤ℤ bank.balance token vault_address w.outside.tokens
    → (t : Balances) × (bank.transfer (callee by_8) token vault_address to n w.outside.tokens
        ≡ some t)
bank_pays w token to n p le =
    let enough : leb_ℤ n (bank.balance token vault_address w.outside.tokens) ≡ true =
      ground arith in
    rw enough (_, refl)

granted-HasRoom : (s : Stream) → lookup 1 running.streams ≡ some s → HasRoom s
unfolding Steps.invoke invoke deployed_vault checked_add checked_sub ◌+ℤ◌ ◌-ℤ◌ set_up_vault
    Contract.initialize create_stream deposit
granted-HasRoom s e =
    let same : granted ≡ s = some-injective _ _ e in
    subst HasRoom same (let r : HasRoom granted = omega arith in r)

payments_end_example :
    (value_of (withdraw ledger by_8 8 1 (pos 51) running) ≡ err exceeds_withdrawable)
    × (value_of (withdraw_max ledger by_8 8 1 running) ≡ ok (pos 50))
    × (value_of (cancel_stream ledger by_8 8 1 running) ≡ err unauthorized)
unfolding Steps.invoke invoke deployed_vault checked_add checked_sub ◌+ℤ◌ ◌-ℤ◌ set_up_vault
    Contract.initialize create_stream deposit
payments_end_example =
    payments_end bank bank-IsToken ledger stream_address vault_address callee ledger-IsDeployed by_8
      5 running running-IsSound (omega arith) refl refl refl (bank_pays running) 8 1 (pos 51)
      granted-HasRoom

-- The recipient takes all that there is at the ledger 15.
abbrev drained : S
drained = commit running (invoke ledger by_8 (Call.withdraw_max 8 1) running)

invoke-Transfers_example :
    (s : Stream) × (amount : ℤ) × (lookup 1 running.streams ≡ some s)
    × (withdrawable_amount s 15 ≡ ok amount)
    × Moved bank s.token vault_address s.recipient amount running.outside.tokens
        drained.outside.tokens
unfolding Steps.invoke invoke deployed_vault checked_add checked_sub ◌+ℤ◌ ◌-ℤ◌ set_up_vault
    Contract.initialize create_stream deposit withdraw withdraw_max release authorize_and_pay
    withdrawable_amount unwithdrawn streamed_amount accrue checked_mul checked_div ◌*ℤ◌
    compute_status
invoke-Transfers_example =
    invoke-Transfers bank bank-IsToken ledger vault_address callee ledger-IsDeployed by_8
      (Call.withdraw_max 8 1) running drained refl refl

-- The recipient takes all at the ledger 25, after the end.
abbrev late_by_8 : Env
late_by_8 = record by_8 { sequence = 25 }

paid_in_full_example :
    (w' : S) × (withdraw_max ledger late_by_8 8 1 running ≡ ok (pos 100, w'))
    × (lookup 1 w'.streams ≡ some (record granted { withdrawn = pos 100 }))
    × (get_stream_balance 1 w'.outside ≡ pos 0)
unfolding Steps.invoke invoke deployed_vault checked_add checked_sub ◌+ℤ◌ ◌-ℤ◌ set_up_vault
    Contract.initialize create_stream deposit
paid_in_full_example =
    paid_in_full bank bank-IsToken ledger stream_address vault_address callee ledger-IsDeployed
      late_by_8 granted 1 5 _ running running-IsSound (omega arith) refl refl refl refl
      (omega arith) (λ e. cc) (omega arith) refl (inr refl)

-- The sender deposits 5 more units for the stream, directly at the vault.
abbrev gift : Steps.Call
gift = Steps.Call.deposit 7 3 (pos 5) 1

abbrev gifted : S
gifted = record running {
  outside =
      commit running.outside (Steps.invoke bank (signed_by_7 vault_address 6) gift running.outside);
}

gifted_reached : Reachable bank ledger stream_address vault_address callee rich 6 gifted
gifted_reached =
    next running_reached
      (vaults (signed_by_7 vault_address 6) gift 6 (omega arith) refl refl refl tt)

balance-due_example :
    get_stream_balance 1 gifted.outside
    ≡ due (lookup 1 gifted.streams)
      +ℤ donated bank bank-IsToken ledger stream_address vault_address callee ledger-IsDeployed
          gifted_reached 1
balance-due_example =
    balance-due bank bank-IsToken ledger stream_address vault_address callee ledger-IsDeployed rich
      6 gifted (λ token. omega arith) gifted_reached 1

tokens_cover_example :
    (owed_in 3 gifted.streams ≤ℤ get_total_locked 3 gifted.outside)
    × (get_total_locked 3 gifted.outside ≤ℤ gifted.outside.tokens 3 vault_address)
tokens_cover_example =
    tokens_cover bank bank-IsToken ledger stream_address vault_address callee ledger-IsDeployed rich
      6 gifted 3 (λ token. omega arith) gifted_reached

numbers_fit_example :
    (current_id gifted ≤ u64_max)
    × Fits 1 (lookup 1 gifted.streams)
    × IsAmount (get_stream_balance 1 gifted.outside)
    × IsAmount (get_total_locked 3 gifted.outside)
numbers_fit_example =
    numbers_fit bank bank-IsToken ledger stream_address vault_address callee ledger-IsDeployed rich
      6 gifted 1 3 (λ token. omega arith) gifted_reached

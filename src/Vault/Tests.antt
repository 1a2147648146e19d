-- ===== src/Vault/Tests.antt =====
-- The theorems on the vault at concrete calls, and runs of its operations.
use stellar_stream_hive_cont.Base.{◌≡◌, refl, inl, ◌⊎◌, none, some, ◌==◌, arith, true}
use stellar_stream_hive_cont.Base.Int.{pos, ◌+ℤ◌, ◌-ℤ◌, checked_add, checked_sub}
use stellar_stream_hive_cont.Host.{Env, Address, err, value_of, commit}
use stellar_stream_hive_cont.Fixtures.{
  Balances, bank, bank-IsToken, rich, vault_address, stream_address, signed_by_7,
}
use stellar_stream_hive_cont.Vault.Types.{unauthorized, PayoutKind}
use stellar_stream_hive_cont.Vault.Storage.{World, deployed, get_stream_balance, get_total_locked}
use stellar_stream_hive_cont.Vault.Contract.{initialize, authorize_and_pay, deposit, release}
use stellar_stream_hive_cont.Base.Dict.{unwrap_or}
use stellar_stream_hive_cont.Vault.Steps.{Call, invoke, Reachable, call, start, next}
use stellar_stream_hive_cont.Vault.Invariant.{IsAccounted}
use stellar_stream_hive_cont.Vault.Custody.{IsCustodian, Reachable-IsCustodian}
use stellar_stream_hive_cont.Vault.Access.{balance_falls-Trusted, invoke-Configured, payer}
use stellar_stream_hive_cont.Vault.Payout.{payout_refused}
use stellar_stream_hive_cont.Host.Lifetime.{Lifetimes, LivesOn}
use stellar_stream_hive_cont.Fixtures.{patient, patient-IsKeeper}
use stellar_stream_hive_cont.Vault.Lifetimes.{Entry, ledger_threshold, lifetimes}
use stellar_stream_hive_cont.Vault.Lasting.{Unchanged, changed_accounts-Lasts}
use stellar_stream_hive_cont.Vault.Expiry.{live, token_expires}
use stellar_stream_hive_cont.Base.{List, [], ◌∷◌}
use stellar_stream_hive_cont.Vault.Log.{held_for, held_in, balances-held}
use stellar_stream_hive_cont.Vault.Book.{book, enter, replay}
use stellar_stream_hive_cont.Vault.Refinement.{book-invoke, gone_through, replay-gone_through}

-- The account 7 calls the vault; the stream contract calls it.
abbrev by_7 : Env
by_7 = signed_by_7 vault_address 12

abbrev by_stream : Env
by_stream = record {
  sequence = 13;
  current_contract = vault_address;
  authorizes = λ a. a == stream_address;
}

-- The vault after its setup by 7, and with 100 units of token 3 for stream 1.
abbrev configured : World Balances
configured = record (deployed rich) { admin = some 7; stream_contract = some stream_address }

abbrev funded : World Balances
funded = commit configured (deposit bank by_7 7 3 (pos 100) 1 configured)

deposit-run : get_total_locked 3 funded ≡ pos 100
unfolding deposit checked_add ◌+ℤ◌
deposit-run = refl

Reachable-IsCustodian_example :
    IsCustodian bank vault_address
      (commit (deployed rich) (invoke bank by_7 (Call.deposit 7 3 (pos 100) 1) (deployed rich)))
Reachable-IsCustodian_example =
    Reachable-IsCustodian bank bank-IsToken vault_address rich _ (λ token. omega arith)
      (next start (call by_7 (Call.deposit 7 3 (pos 100) 1) refl refl))

balance_falls-Trusted_example :
    (caller : Address) × (payer (Call.release stream_address 8 3 (pos 40) 1) ≡ some caller)
    × (funded.stream_contract ≡ some caller)
    × (by_stream.authorizes caller ≡ true)
unfolding deposit checked_add checked_sub ◌+ℤ◌ ◌-ℤ◌ release invoke
balance_falls-Trusted_example =
    balance_falls-Trusted bank by_stream (Call.release stream_address 8 3 (pos 40) 1) 1 funded
      (omega arith)

invoke-Configured_example :
    let w' = commit funded (invoke bank by_7 (Call.set_stream_contract 7 61) funded) in
    ((w'.admin ≡ funded.admin) × (w'.stream_contract ≡ funded.stream_contract))
    ⊎ ((funded.admin ≡ none) × ((a : Address) × (w'.admin ≡ some a) × (by_7.authorizes a ≡ true)))
    ⊎ ((w'.admin ≡ funded.admin)
        × ((a : Address) × (funded.admin ≡ some a) × (by_7.authorizes a ≡ true)))
invoke-Configured_example = invoke-Configured bank by_7 (Call.set_stream_contract 7 61) funded

funded-IsAccounted : IsAccounted funded
unfolding deposit checked_add ◌+ℤ◌
funded-IsAccounted = record {
  nonneg = omega arith;
  funded = λ id e. ground arith;
  summed = λ t. ground arith;
  bounded = λ t. ground arith;
}

payout_refused_example :
    value_of (authorize_and_pay bank by_7 7 8 3 (pos 40) 1 PayoutKind.release funded)
    ≡ err unauthorized
unfolding deposit checked_add ◌+ℤ◌
payout_refused_example =
    payout_refused bank by_7 7 8 3 stream_address 3 (pos 40) 1 PayoutKind.release funded
      (omega arith) refl refl refl (inl (omega arith))

-- What the vault becomes by its setup and a deposit.
abbrev opened : World Balances
opened =
    commit (deployed rich) (invoke bank by_7 (Call.initialize 7 stream_address) (deployed rich))

abbrev laid : World Balances
laid = commit opened (invoke bank by_7 (Call.deposit 7 3 (pos 100) 1) opened)

abbrev laid_run : Reachable bank vault_address rich laid
laid_run =
    next (next start (call by_7 (Call.initialize 7 stream_address) refl refl))
      (call by_7 (Call.deposit 7 3 (pos 100) 1) refl refl)

balances-held_example :
    (get_stream_balance 1 laid ≡ held_for 1 laid.events)
    × (get_total_locked 3 laid ≡ held_in 3 laid.events)
balances-held_example = balances-held bank vault_address rich laid laid_run 1 3

replay-gone_through_example :
    replay ((by_7, Call.deposit 7 3 (pos 100) 1) ∷ (by_7, Call.initialize 7 stream_address) ∷ [])
    ≡ some (book laid)
unfolding gone_through invoke initialize deposit checked_add ◌+ℤ◌
replay-gone_through_example =
    replay-gone_through bank bank-IsToken vault_address rich laid (λ token. omega arith) laid_run

book-invoke_example :
    book (commit funded (invoke bank by_stream (Call.release stream_address 8 3 (pos 40) 1) funded))
    ≡ unwrap_or
        (enter by_stream (Call.release stream_address 8 3 (pos 40) 1) (book funded))
        (book funded)
unfolding deposit checked_add ◌+ℤ◌ ◌-ℤ◌
book-invoke_example =
    book-invoke bank by_stream (Call.release stream_address 8 3 (pos 40) 1) funded
      funded-IsAccounted (_, refl)

-- In `funded` every entry lives until the ledger 5,000.
abbrev laid_out : Lifetimes Entry
laid_out e = some 5000

changed_accounts-Lasts_example :
    let c = Call.release stream_address 8 3 (pos 40) 1 in
    Unchanged (Entry.balance_entry 1) funded (commit funded (invoke bank by_stream c funded))
    ⊎ LivesOn 13 ledger_threshold
        (Entry.balance_entry 1)
        (lifetimes bank patient by_stream c funded laid_out)
changed_accounts-Lasts_example =
    changed_accounts-Lasts bank patient patient-IsKeeper by_stream
      (Call.release stream_address 8 3 (pos 40) 1) (Entry.balance_entry 1) funded laid_out

-- A deposit for the stream 1 and a payout of it.
abbrev later_calls : List (Env × Call)
later_calls =
    (by_7, Call.deposit 7 3 (pos 5) 1)
    ∷ (by_stream, Call.release stream_address 8 3 (pos 40) 1)
    ∷ []

token_expires_example :
    live bank patient later_calls funded laid_out (Entry.token_entry 1) ≡ some 5000
unfolding deposit checked_add ◌+ℤ◌
token_expires_example = token_expires bank patient later_calls 1 3 5000 funded laid_out refl refl

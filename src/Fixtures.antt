-- ===== src/Fixtures.antt =====
-- Concrete tokens and a concrete host, for the tests of the contracts.
use Prim.Native.String.{String}
use text.Mathlib.Text.{◌==◌ as str_eq}
use stellar_stream_hive_cont.Base.{
  ℕ, ◌≡◌, refl, sym, ap, inl, inr, Bool-cases, true, Option, none, some, List, [], ◌∷◌, ◌&&◌, ◌||◌,
  ◌==◌, if◌then◌else◌, arith, leb, max, ◌+◌, ◌≤◌,
}
use mathlib.Core.Option.{some-injective, none-ne-some}
use stellar_stream_hive_cont.Base.Int.{ℤ, pos, ◌+ℤ◌, ◌-ℤ◌, leb_ℤ}
use stellar_stream_hive_cont.Host.{Env, Address}
use stellar_stream_hive_cont.Host.Lifetime.{Keeper, IsKeeper}
use stellar_stream_hive_cont.Host.Invoke.{Val, Invoker}
use stellar_stream_hive_cont.Host.Token.{TokenClient, IsToken}
use stellar_stream_hive_cont.Vault.Storage.{World}
use stellar_stream_hive_cont.Vault.Contract.{deposit, release, refund}
use stellar_stream_hive_cont.System.Deployment.{IsDeployed, finished}

-- The state of the tokens: the balance of each account in each token.
abbrev pub Balances : Type 0
Balances = Address → Address → ℤ

abbrev moved : Address → Address → Address → ℤ → Balances → Balances
moved token from to amount s tok a =
    s tok a
    -ℤ (if tok == token && a == from then amount else pos 0)
    +ℤ (if tok == token && a == to then amount else pos 0)

abbrev pub bank : TokenClient Balances
bank = record {
  transfer = λ env token from to amount s.
      if leb_ℤ amount (s token from) then some (moved token from to amount s) else none;
  balance = λ tok a s. s tok a;
}

bank_moves :
    (env : Env) (token from to : Address) (amount : ℤ) (s s' : Balances)
    → bank.transfer env token from to amount s ≡ some s'
    → (tok a : Address) → s' tok a ≡ moved token from to amount s tok a
bank_moves env token from to amount s s' h tok a = elim (Bool-cases (leb_ℤ amount (s token from))) [
  | inl paid ↦ let q = some-injective _ _ (rw paid at h) in sym (ap (λ (f : Balances). f tok a) q)
  | inr refused ↦ let q = rw refused at h in absurd (none-ne-some s' q)
]

pub bank-IsToken : IsToken bank
bank-IsToken = record { transfer_moves = bank_moves }

-- Everybody has 1000 units of every token.
abbrev pub rich : Balances
rich tok a = pos 1000

-- The addresses of the contracts.
abbrev pub vault_address : Address
vault_address = 50

abbrev pub stream_address : Address
stream_address = 60

-- A call of a contract in which only the account 7 has signed.
abbrev pub signed_by_7 : Address → ℕ → Env
signed_by_7 contract now = record {
  sequence = now;
  current_contract = contract;
  authorizes = λ a. a == 7;
}

-- The environment of a call of the vault by a contract.
abbrev pub callee : Env → Env
callee env = record {
  sequence = env.sequence;
  current_contract = vault_address;
  authorizes = λ a. a == env.current_contract || env.authorizes a;
}

abbrev dispatch : Env → String → List Val → World Balances → Option (World Balances)
dispatch env name (Val.address from ∷ Val.address token ∷ Val.i128 amount ∷ Val.u64 id ∷ []) w =
    if str_eq name "deposit" then finished (deposit bank env from token amount id w) else none
dispatch env name
      (Val.address caller ∷ Val.address to ∷ Val.address token ∷ Val.i128 amount ∷ Val.u64 id ∷ [])
      w =
    if str_eq name "release"
    then finished (release bank env caller to token amount id w)
    else if str_eq name "refund"
    then finished (refund bank env caller to token amount id w)
    else none
dispatch env name _ w = none

-- A ledger with one other contract, the vault.
abbrev pub ledger : Invoker (World Balances)
ledger = record {
  invoke_contract = λ env contract name args w.
      if contract == vault_address then dispatch (callee env) name args w else none;
}

invoker_known : (env : Env) → (callee env).authorizes env.current_contract ≡ true
invoker_known env = ground arith

pub ledger-IsDeployed : IsDeployed bank ledger vault_address callee
ledger-IsDeployed = record {
  here = λ env. refl;
  same_ledger = λ env. refl;
  invoker = invoker_known;
  runs_deposit = λ env from token amount id w. refl;
  runs_release = λ env caller to token amount id w. refl;
  runs_refund = λ env caller to token amount id w. refl;
}

-- A host that lets a new entry live for 4,096 ledgers, and never longer than asked.
abbrev pub patient : Keeper
patient = record {
  extended = λ now until threshold extend_to.
      if leb until (now + threshold) then max until (now + extend_to) else until;
  first = λ now. now + 4096;
}

patient-no_shorter :
    (now until threshold extend_to : ℕ) → until ≤ patient.extended now until threshold extend_to
patient-no_shorter now until threshold extend_to = elim (Bool-cases (leb until (now + threshold))) [
  | inl few ↦ rw few (omega arith)
  | inr many ↦ rw many (omega arith)
]

patient-extends :
    (now until threshold extend_to : ℕ)
    → until ≤ now + threshold
    → now + extend_to ≤ patient.extended now until threshold extend_to
patient-extends now until threshold extend_to h =
    let few : leb until (now + threshold) ≡ true = ground arith in rw few (omega arith)

pub patient-IsKeeper : IsKeeper patient
patient-IsKeeper = record { no_shorter = patient-no_shorter; extends = patient-extends }

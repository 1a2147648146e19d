-- ===== src/Vault/Book.antt =====
-- The abstract vault: a book with one account for each stream, which forgets how the storage and the
-- totals are kept (contracts/vault/src/lib.rs implements it).
use stellar_stream_hive_cont.Base.{
  List, [], ◌∷◌, ℕ, ◌+◌, ◌-◌, Bool, true, false, not, ◌&&◌, Option, none, some, ◌==◌, leb,
  if◌then◌else◌,
}
use stellar_stream_hive_cont.Base.Int.{ℤ, pos, pos_part, leb_ℤ}
use stellar_stream_hive_cont.Base.Dict.{lookup, is_some}
use stellar_stream_hive_cont.Host.{Env, Address}
use stellar_stream_hive_cont.Vault.Storage.{World, get_stream_balance}
use stellar_stream_hive_cont.Vault.Steps.{Call}

pub record Book : Type 0 where
  pub admin : Option Address
  pub trusted : Option Address
  pub token : ℕ → Option Address
  pub funds : ℕ → ℕ

-- A book in which nothing has been entered.
abbrev pub blank : Book
blank = record { admin = none; trusted = none; token = λ id. none; funds = λ id. 0 }

abbrev pub set_at : {A : Type 0} → ℕ → A → (ℕ → A) → ℕ → A
set_at k a f i = if i == k then a else f i

-- Whether an entry is there and is `a`.
abbrev pub holds : Option Address → Address → Bool
holds none a = false
holds (some b) a = b == a

-- An account takes any token until it has one.
abbrev pub accepts : Option Address → Address → Bool
accepts none a = true
accepts (some b) a = b == a

abbrev pub receive : Env → Address → Address → ℤ → ℕ → Book → Option Book
receive env from token amount id b =
    if leb_ℤ (pos 1) amount && env.authorizes from && accepts (b.token id) token
    then some (record b {
      token = set_at id (some token) b.token;
      funds = set_at id (b.funds id + pos_part amount) b.funds;
    })
    else none

abbrev pub pay : Env → Address → Address → ℤ → ℕ → Book → Option Book
pay env caller token amount id b =
    if leb_ℤ (pos 1) amount
      && holds b.trusted caller
      && env.authorizes caller
      && accepts (b.token id) token
      && leb (pos_part amount) (b.funds id)
    then some (record b { funds = set_at id (b.funds id - pos_part amount) b.funds })
    else none

-- What a call of the vault means for its book; `none` if it is refused.
unfoldable pub enter : Env → Call → Book → Option Book
enter env (Call.initialize admin contract) b =
    if not (is_some b.admin) && env.authorizes admin
    then some (record b { admin = some admin; trusted = some contract })
    else none
enter env (Call.set_stream_contract admin contract) b =
    if holds b.admin admin && env.authorizes admin
    then some (record b { trusted = some contract })
    else none
enter env (Call.deposit from token amount id) b = receive env from token amount id b
enter env (Call.release caller to token amount id) b = pay env caller token amount id b
enter env (Call.refund caller to token amount id) b = pay env caller token amount id b

abbrev entered : Env → Call → Option Book → Option Book
entered env c none = none
entered env c (some b) = enter env c b

-- The book after the given calls, the last in front; `none` if it refuses one of them.
unfoldable pub replay : List (Env × Call) → Option Book
replay [] = some blank
replay ((env, c) ∷ cs) = entered env c (replay cs)

-- The book that a vault keeps.
abbrev pub book : {T : Type 0} → World T → Book
book w = record {
  admin = w.admin;
  trusted = w.stream_contract;
  token = λ id. lookup id w.stream_token;
  funds = λ id. pos_part (get_stream_balance id w);
}

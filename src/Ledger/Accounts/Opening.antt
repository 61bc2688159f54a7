-- ===== src/Ledger/Accounts/Opening.antt =====
-- internal/ledger/state.go: ApplyAccountCreate.
use pixie_block.Base.{
  String, ◌==◌, if◌then◌else◌, ⊤, Option, none, some, ◌≡◌, refl, ap, inl, inr, arith,
}
use pixie_block.Base.Int.{pos, pos_part, neg_part, int_laws}
use pixie_block.Base.Dict.{insert-AllNonneg, lookup, lookup-insert, measure_at, sum_by-insert}
use pixie_block.Base.Result.{ok, err, Result-cases}
use pixie_block.Errors.{Error, Result}
use pixie_block.Domain.{Bytes, Account, AccountCreateTransaction}
use pixie_block.Crypto.{Primitives, parse_public_key}
use pixie_block.Ledger.State.{State}
use pixie_block.Ledger.Payment.Supply.{balance_of, supply}
use pixie_block.Ledger.Payment.Exact.{IsSolvent}
use pixie_block.Ledger.Accounts.{
  check_create_fields, validate_account_create, open_account, apply_account_create,
}

-- A create that is accepted is for an account that does not exist.
check_create_fields-absent :
    (s : State) (tx : AccountCreateTransaction)
    → check_create_fields s tx ≡ ok tt
    → lookup tx.account.id s.accounts ≡ none
unfolding check_create_fields
check_create_fields-absent s tx h = ground arith

validate_account_create-absent :
    (p : Primitives) (tx : AccountCreateTransaction) (s : State)
    → validate_account_create p tx s ≡ ok tt
    → lookup tx.account.id s.accounts ≡ none
unfolding validate_account_create
validate_account_create-absent p tx s h = check_create_fields-absent s tx (ground arith)

pub open_account-supply :
    (tx : AccountCreateTransaction) (key : Bytes) (s : State)
    → lookup tx.account.id s.accounts ≡ none
    → supply (open_account tx key s) ≡ supply s
unfolding open_account
open_account-supply tx key s absent =
    let a : Account = record { id = tx.account.id; type = tx.account.type; balance = pos 0 } in
    let zero : measure_at balance_of tx.account.id s.accounts ≡ pos 0 = rw (absent, measure_at) in
    omega (
      int_laws,
      ap pos_part (sum_by-insert balance_of tx.account.id a s.accounts),
      ap neg_part (sum_by-insert balance_of tx.account.id a s.accounts),
      ap pos_part zero,
      ap neg_part zero,
    )

-- The branches of ApplyAccountCreate, by how the validation ended.
abbrev pub Branches :
    Primitives → AccountCreateTransaction → State → State × Option Error → Result ⊤ → Type 0
Branches p tx s r (err e) = r ≡ (s, some e)
Branches p tx s r (ok _) =
    (key : Bytes) × (parse_public_key p tx.public_key ≡ ok key)
    × (lookup tx.account.id s.accounts ≡ none)
    × (r ≡ (open_account tx key s, none))

validate_account_create-key :
    (p : Primitives) (tx : AccountCreateTransaction) (s : State)
    → validate_account_create p tx s ≡ ok tt
    → (key : Bytes) × (parse_public_key p tx.public_key ≡ ok key)
unfolding validate_account_create
validate_account_create-key p tx s h = elim (Result-cases (parse_public_key p tx.public_key)) [
  | inl (key, e) ↦ (key, e)
  | inr (x, e) ↦ absurd (ground arith)
]

create_then-Branches :
    (p : Primitives) (tx : AccountCreateTransaction) (s : State) (v : Result ⊤)
    → (v ≡ ok tt → (key : Bytes) × (parse_public_key p tx.public_key ≡ ok key))
    → (v ≡ ok tt → lookup tx.account.id s.accounts ≡ none)
    → Branches p tx s
        (elim v [
          | ok _ ↦ elim (parse_public_key p tx.public_key) [
            | ok key ↦ (open_account tx key s, none)
            | err e ↦ (s, some e)
          ]
          | err e ↦ (s, some e)
        ])
        v
create_then-Branches p tx s (ok tt) key absent = let (k, e) = key refl in (k, e, absent refl, rw e)
create_then-Branches p tx s (err x) key absent = refl

pub apply_account_create-Branches :
    (p : Primitives) (tx : AccountCreateTransaction) (s : State)
    → Branches p tx s (apply_account_create p tx s) (validate_account_create p tx s)
unfolding apply_account_create
apply_account_create-Branches p tx s =
    create_then-Branches p tx s (validate_account_create p tx s)
      (validate_account_create-key p tx s) (validate_account_create-absent p tx s)

-- On a solvent state the state with the account opened is solvent too.
pub open_account-IsSolvent :
    (tx : AccountCreateTransaction) (key : Bytes) (s : State)
    → lookup tx.account.id s.accounts ≡ none
    → IsSolvent s
    → IsSolvent (open_account tx key s)
open_account-IsSolvent tx key s absent v = record {
  nonneg = unfold open_account in insert-AllNonneg balance_of _ _ s.accounts v.nonneg (omega arith);
  bounded = rw (open_account-supply tx key s absent) v.bounded;
}

-- The account is there with its type and no balance, its key is the one that the create names, and
-- no other account, key or setting has changed.
pub record IsOpened (p : Primitives) (tx : AccountCreateTransaction) (s t : State) : Type 0 where
  pub key : Bytes
  pub parsed : parse_public_key p tx.public_key ≡ ok key
  pub accounts :
      (j : String)
      → lookup j t.accounts ≡ (
          if tx.account.id == j
          then some (record { id = tx.account.id; type = tx.account.type; balance = pos 0 })
          else lookup j s.accounts)
  pub keys :
      (j : String)
      → lookup j t.account_pub_keys
        ≡ (if tx.account.id == j then some key else lookup j s.account_pub_keys)
  pub tax_split : t.tax_split ≡ s.tax_split
  pub allowed : t.allowed_tax_accts ≡ s.allowed_tax_accts
  pub validators : t.validator_pub_keys ≡ s.validator_pub_keys

open_account-IsOpened :
    (p : Primitives) (tx : AccountCreateTransaction) (key : Bytes) (s : State)
    → parse_public_key p tx.public_key ≡ ok key
    → IsOpened p tx s (open_account tx key s)
unfolding open_account
open_account-IsOpened p tx key s parsed = record {
  key = key;
  parsed = parsed;
  accounts = λ j. lookup-insert j tx.account.id _ s.accounts;
  keys = λ j. lookup-insert j tx.account.id key s.account_pub_keys;
  tax_split = refl;
  allowed = refl;
  validators = refl;
}

-- What ApplyAccountCreate does, by how the validation ended.
abbrev pub Opens :
    Primitives → AccountCreateTransaction → State → State × Option Error → Result ⊤ → Type 0
Opens p tx s r (err e) = r ≡ (s, some e)
Opens p tx s r (ok _) =
    (r.1 ≡ none)
    × (lookup tx.account.id s.accounts ≡ none)
    × IsOpened p tx s r.0
    × (supply r.0 ≡ supply s)

Branches-Opens :
    (p : Primitives) (tx : AccountCreateTransaction) (s : State) (r : State × Option Error)
    (v : Result ⊤)
    → Branches p tx s r v
    → Opens p tx s r v
Branches-Opens p tx s r (err e) h = h
Branches-Opens p tx s r (ok _) (key, parsed, absent, h) = (
  ap (λ q. q.1) h,
  absent,
  rw h (open_account-IsOpened p tx key s parsed),
  rw h (open_account-supply tx key s absent),
)

-- For every create and state: if ValidateAccountCreate returns an error, ApplyAccountCreate returns
-- that error and leaves the state as it was. Otherwise it returns no error and the account did not
-- exist before. Then it has the type that the create names and no balance, its public key is the one
-- that the create names, every other account and key and all the settings are what they were, and the
-- sum of all balances is too.
pub apply_account_create-Opens :
    (p : Primitives) (tx : AccountCreateTransaction) (s : State)
    → Opens p tx s (apply_account_create p tx s) (validate_account_create p tx s)
apply_account_create-Opens p tx s =
    Branches-Opens p tx s (apply_account_create p tx s) (validate_account_create p tx s)
      (apply_account_create-Branches p tx s)

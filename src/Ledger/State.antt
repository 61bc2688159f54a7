-- ===== src/Ledger/State.antt =====
-- internal/ledger/state.go: `State` and its accessors, and calls that change a state and may return
-- an error. A nil key map reads as an empty one, so `account_pub_keys` is a map throughout.
pub mod Copy
use pixie_block.Base.{
  ℕ, String, Bool, true, false, ⊤, List, [], ◌∷◌, Option, none, some, if◌then◌else◌, refl,
}
use pixie_block.Base.Int.{ℤ, pos}
use pixie_block.Base.Int64.{add64, sub64}
use pixie_block.Base.Dict.{Dict, lookup, insert, erase, contains, copy_into}
use pixie_block.Base.Result.{ok, err}
use pixie_block.Errors.{Error, Result}
use pixie_block.Domain.{Bytes, Account, TaxSplit}

pub record State : Type 0 where
  pub accounts : Dict Account
  pub tax_split : Dict TaxSplit
  pub allowed_tax_accts : Dict ⊤
  pub validator_pub_keys : Dict Bytes
  pub account_pub_keys : Dict Bytes

-- `for _, id := range allowedTax { allowed[id] = struct{}{} }`
abbrev pub allow_all : Dict ⊤ → List String → Dict ⊤
allow_all allowed [] = allowed
allow_all allowed (id ∷ ids) = allow_all (insert id tt allowed) ids

unfoldable pub new_state : List String → Dict TaxSplit → State
new_state allowed_tax taxes = record {
  accounts = [];
  tax_split = copy_into [] taxes;
  allowed_tax_accts = allow_all [] allowed_tax;
  validator_pub_keys = [];
  account_pub_keys = [];
}

unfoldable pub clone : State → State
unfolding new_state
clone s =
    let c = new_state [] s.tax_split in
    record c {
      accounts = copy_into c.accounts s.accounts;
      allowed_tax_accts = copy_into c.allowed_tax_accts s.allowed_tax_accts;
      validator_pub_keys = copy_into c.validator_pub_keys s.validator_pub_keys;
      account_pub_keys = copy_into c.account_pub_keys s.account_pub_keys;
    }

-- What `m[k]` yields for a missing key.
abbrev pub zero_account : Account
zero_account = record { id = ""; type = ""; balance = pos 0 }

-- `state.Accounts[id]`, without the test for presence.
abbrev pub account_at : String → Dict Account → Account
account_at id d = elim (lookup id d) [ none ↦ zero_account | some a ↦ a ]

unfoldable pub set_balance : String → ℤ → State → State
set_balance id balance s = record s {
  accounts =
      insert id
        (elim (lookup id s.accounts) [
          | none ↦ record { id = id; type = ""; balance = balance }
          | some existing ↦ record { id = id; type = existing.type; balance = balance }
        ])
        s.accounts;
}

unfoldable pub set_account : Account → State → State
set_account acct s = record s { accounts = insert acct.id acct s.accounts }

unfoldable pub balance : String → State → Option ℤ
balance id s = elim (lookup id s.accounts) [ none ↦ none | some acct ↦ some acct.balance ]

unfoldable pub add_validator : String → Bytes → State → State
add_validator id pub_key s = record s {
  validator_pub_keys = insert id pub_key s.validator_pub_keys;
}

unfoldable pub account_pub_key : String → State → Option Bytes
account_pub_key id s = lookup id s.account_pub_keys

unfoldable pub set_account_pub_key : String → Bytes → State → State
set_account_pub_key id pub_key s = record s {
  account_pub_keys = insert id pub_key s.account_pub_keys;
}

unfoldable pub remove_account_pub_key : String → State → State
remove_account_pub_key id s = record s { account_pub_keys = erase id s.account_pub_keys }

-- `acct := state.Accounts[id]; acct.Balance += amount; state.Accounts[id] = acct`
unfoldable pub add_balance : String → ℤ → State → State
add_balance id amount s =
    let a = account_at id s.accounts in
    record s { accounts = insert id (record a { balance = add64 a.balance amount }) s.accounts }

-- The same with `-=`.
unfoldable pub sub_balance : String → ℤ → State → State
sub_balance id amount s =
    let a = account_at id s.accounts in
    record s { accounts = insert id (record a { balance = sub64 a.balance amount }) s.accounts }

-- A call on a `*State` that may return an error: the state as it was left comes back either way.
abbrev pub Action : Type 0
Action = State → State × Option Error

-- `if err := check(state); err != nil { return err }`, then the rest.
abbrev pub check_then : (State → Result ⊤) → Action → Action
check_then check rest s = elim (check s) [ ok _ ↦ rest s | err e ↦ (s, some e) ]

-- One call after another, the second only if the first returns no error.
abbrev pub and_then : Action → Action → Action
and_then first rest s = let (t, e) = first s in elim e [ none ↦ rest t | some x ↦ (t, some x) ]

abbrev pub modify : (State → State) → Action
modify f s = (f s, none)

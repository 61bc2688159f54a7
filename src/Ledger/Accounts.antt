-- ===== src/Ledger/Accounts.antt =====
-- internal/ledger/state.go: the transactions that create and close accounts.
pub mod Opening
pub mod Closing
use pixie_block.Base.{
  String, Bool, true, false, not, ◌||◌, ⊤, List, [], ◌∷◌, Option, none, some, ◌==◌, length, nat_eq,
  bytes_eq, if◌then◌else◌, ◌&&◌,
}
use pixie_block.Base.Int.{ℤ, pos, ltb_ℤ, eqb_ℤ}
use pixie_block.Base.Dict.{Dict, lookup, contains, erase}
use pixie_block.Base.Result.{ok, err, ◌>>=◌, ◌>>◌, guard, or_fail, wrap_err}
use pixie_block.Errors
use pixie_block.Errors.{Error, Result}
use pixie_block.Domain.{
  Bytes, Account, AccountCreateTransaction, AccountCloseTransaction, account_type_person,
  account_type_merchant,
}
use pixie_block.Crypto.{
  Primitives, account_create_sign_bytes, account_close_sign_bytes, parse_public_key, verify,
}
use pixie_block.Ledger.State.{
  State, account_at, account_pub_key, set_account, set_account_pub_key, remove_account_pub_key,
  add_balance, Action, check_then,
}

-- `case domain.AccountTypePerson, domain.AccountTypeMerchant:`
abbrev pub is_open_type : String → Bool
is_open_type type = type == account_type_person || type == account_type_merchant

unfoldable pub check_create_fields : State → AccountCreateTransaction → Result ⊤
check_create_fields s tx = do
  guard (not (tx.id == "")) Errors.create_id_required
  guard (not (tx.account.id == "")) Errors.account_id_required
  guard (is_open_type tx.account.type) (Errors.account_type_not_allowed tx.account.type)
  guard (eqb_ℤ tx.account.balance (pos 0)) Errors.new_balance_not_zero
  guard (not (contains tx.account.id s.accounts)) (Errors.account_exists tx.account.id)
  guard (not (tx.public_key == "")) Errors.public_key_required

abbrev pub default_treasury : String
default_treasury = "federal_treasury"

unfoldable pub resolve_close_destination : AccountCloseTransaction → String
resolve_close_destination tx = if tx.destination == "" then default_treasury else tx.destination

-- The rules for the balance and the destination, by the type of the account.
unfoldable pub check_destination : State → AccountCloseTransaction → Account → Result ⊤
unfolding resolve_close_destination
check_destination s tx acct =
    let dest = resolve_close_destination tx in
    if acct.type == account_type_merchant
    then (do
      guard (eqb_ℤ acct.balance (pos 0))
          (Errors.merchant_balance_not_zero tx.account_id acct.balance)
      guard (tx.destination == "") Errors.merchant_destination)
    else (do
      guard (not (dest == tx.account_id)) Errors.destination_is_account
      guard (contains dest s.accounts) (Errors.destination_not_found dest))

-- What ApplyAccountCreate does to the state once the transaction and its key are accepted.
unfoldable pub open_account : AccountCreateTransaction → Bytes → State → State
unfolding set_account set_account_pub_key
open_account tx pub_key s =
    set_account_pub_key tx.account.id pub_key
      (set_account (record { id = tx.account.id; type = tx.account.type; balance = pos 0 }) s)

unfoldable pub check_close_account : State → AccountCloseTransaction → Result Account
check_close_account s tx = do
  guard (not (tx.id == "")) Errors.close_id_required
  guard (not (tx.account_id == "")) Errors.account_id_required
  acct ← or_fail (lookup tx.account_id s.accounts) (Errors.account_not_found tx.account_id)
  guard (is_open_type acct.type) (Errors.account_type_not_closable acct.type)
  ok acct

-- What ApplyAccountClose does to the state: the residual balance of a person goes to the
-- destination, then the account and its key are deleted.
unfoldable pub close_account : AccountCloseTransaction → State → State
unfolding remove_account_pub_key
close_account tx s =
    let acct = account_at tx.account_id s.accounts in
    let paid =
      if acct.type == account_type_person && ltb_ℤ (pos 0) acct.balance
      then add_balance (resolve_close_destination tx) acct.balance s
      else s in
    remove_account_pub_key tx.account_id
      (record paid { accounts = erase tx.account_id paid.accounts })

module _ (p : Primitives) where
  any_verifies : Dict Bytes → Bytes → Bytes → Bool
  any_verifies [] message signature = false
  any_verifies ((id, pub_key) ∷ keys) message signature =
      verify p pub_key message signature || any_verifies keys message signature

  unfoldable pub verify_any_validator : State → Bytes → Bytes → Bool
  unfolding any_verifies
  verify_any_validator s message signature = any_verifies s.validator_pub_keys message signature

  unfoldable pub check_create_signature : State → AccountCreateTransaction → Result ⊤
  check_create_signature s tx = do
    guard (not (nat_eq (length tx.signature) 0)) Errors.create_signature_required
    sign_bytes ← wrap_err Errors.canonical_bytes (account_create_sign_bytes p tx)
    guard (verify_any_validator s sign_bytes tx.signature) Errors.invalid_create_signature

  unfoldable pub validate_account_create : AccountCreateTransaction → State → Result ⊤
  validate_account_create tx s = do
    check_create_fields s tx
    wrap_err Errors.bad_public_key (parse_public_key p tx.public_key)
    check_create_signature s tx

  unfoldable pub apply_account_create : AccountCreateTransaction → Action
  apply_account_create tx = check_then (validate_account_create tx) (λ s.
      elim (parse_public_key p tx.public_key) [
        | ok pub_key ↦ (open_account tx pub_key s, none)
        | err e ↦ (s, some e)
      ])

  -- The key of the transaction must be the key of the account, which is returned.
  unfoldable pub check_close_key : State → AccountCloseTransaction → Result Bytes
  check_close_key s tx = do
    guard (not (tx.public_key == "")) Errors.public_key_required
    pub_from_tx ← wrap_err Errors.bad_public_key (parse_public_key p tx.public_key)
    acct_pub ←
        or_fail (account_pub_key tx.account_id s) (Errors.account_key_not_found tx.account_id)
    guard (bytes_eq pub_from_tx acct_pub) (Errors.account_key_mismatch tx.account_id)
    ok acct_pub

  -- A person's close is signed by a validator, a merchant's by the account.
  unfoldable pub check_close_signature :
      State → AccountCloseTransaction → Account → Bytes → Result ⊤
  check_close_signature s tx acct acct_pub = do
    guard (not (nat_eq (length tx.signature) 0)) Errors.close_signature_required
    sign_bytes ← wrap_err Errors.canonical_bytes (account_close_sign_bytes p tx)
    guard (not (acct.type == account_type_person) || verify_any_validator s sign_bytes tx.signature)
        Errors.invalid_close_signature
    guard (not (acct.type == account_type_merchant) || verify p acct_pub sign_bytes tx.signature)
        Errors.invalid_close_signature

  unfoldable pub validate_account_close : AccountCloseTransaction → State → Result ⊤
  validate_account_close tx s = do
    acct ← check_close_account s tx
    acct_pub ← check_close_key s tx
    check_destination s tx acct
    check_close_signature s tx acct acct_pub

  unfoldable pub apply_account_close : AccountCloseTransaction → Action
  apply_account_close tx = check_then (validate_account_close tx) (λ s. (close_account tx s, none))

-- ===== src/Tests/Ledger.antt =====
-- The ledger on concrete inputs.
use pixie_block.Base.{◌≡◌, refl, none, arith}
use pixie_block.Base.Int.{pos, ◌+ℤ◌, ◌-ℤ◌, ◌*ℤ◌, quot}
use pixie_block.Base.Int64.{add64, sub64, mul64, wrap64, residue}
use pixie_block.Base.Result.{ok}
use pixie_block.Domain.{gross_amount, tax_total, discount_total, net_to_payee, tax_amount}
use pixie_block.Crypto.{
  transaction_sign_bytes, account_create_sign_bytes, account_close_sign_bytes, block_sign_bytes,
  block_hash, verify, parse_public_key,
}
use pixie_block.Ledger.State.{State, clone, balance, account_pub_key, add_balance, sub_balance}
use pixie_block.Ledger.Payment.{
  check_fields, check_items, check_totals, check_funds, check_signature, validate_transaction,
  apply_transaction, transfer,
}
use pixie_block.Domain.Sums.{gross_sum, discount_sum}
use pixie_block.Domain.Products.{true_tax_sum, HasProducts, net_to_payee_exact}
use pixie_block.Ledger.State.Copy.{HasMaps}
use pixie_block.Ledger.Payment.Refines.{Posts, apply_transaction-Posts}
use pixie_block.Ledger.Payment.Supply.{supply, apply_transaction-supply_mod}
use pixie_block.Ledger.Payment.Exact.{IsSolvent, HasExactTotals, apply_transaction-supply}
use pixie_block.Ledger.Accounts.{
  check_create_fields, validate_account_create, apply_account_create, open_account,
  check_destination, check_close_account, check_close_key, check_close_signature,
  check_create_signature, verify_any_validator, validate_account_close, apply_account_close,
  close_account,
}
use pixie_block.Ledger.Accounts.Opening.{Opens, apply_account_create-Opens}
use pixie_block.Ledger.Accounts.Closing.{Closes, apply_account_close-Closes}
use pixie_block.Ledger.Blocks.{
  apply_each, check_header, apply_creates, apply_payments, apply_closes, apply_block,
  validate_block,
}
use pixie_block.Ledger.Blocks.Header.{IsLinked, validate_block-IsLinked}
use pixie_block.Ledger.Blocks.Supply.{Preserves, validate_block-Preserves}
use pixie_block.Tests.Samples.{toy, ledger, payment, create, close, next_block, genesis_block}

payment_totals :
    (gross_amount payment ≡ pos 1000)
    × (tax_total ledger.tax_split payment ≡ pos 50)
    × (discount_total payment ≡ pos 16)
    × (net_to_payee ledger.tax_split payment ≡ pos 934)
unfolding net_to_payee tax_amount add64 sub64 mul64 wrap64 ◌+ℤ◌ ◌-ℤ◌ ◌*ℤ◌ quot
payment_totals = (refl, refl, refl, refl)

payment_valid : validate_transaction toy payment ledger ≡ ok tt
unfolding net_to_payee tax_amount add64 sub64 mul64 wrap64 ◌+ℤ◌ ◌-ℤ◌ ◌*ℤ◌ quot validate_transaction
    check_fields check_items check_totals check_funds check_signature transaction_sign_bytes verify
    balance account_pub_key
payment_valid = refl

payment-HasProducts : HasProducts ledger.tax_split payment.items
unfolding ◌*ℤ◌
payment-HasProducts = ((record { above = omega arith; below = omega arith }, tt), tt)

net_to_payee_exact_example :
    net_to_payee ledger.tax_split payment
    ≡ wrap64 (
        gross_sum payment.items
        -ℤ true_tax_sum ledger.tax_split payment.items
        -ℤ discount_sum payment.items)
net_to_payee_exact_example = net_to_payee_exact ledger.tax_split payment payment-HasProducts

apply_transaction-Posts_example :
    Posts payment ledger
      (validate_transaction toy payment ledger)
      (apply_transaction toy payment ledger)
apply_transaction-Posts_example = apply_transaction-Posts toy payment ledger

apply_transaction-supply_mod_example :
    residue (supply (apply_transaction toy payment ledger).0) ≡ residue (supply ledger)
apply_transaction-supply_mod_example = apply_transaction-supply_mod toy payment ledger

pub ledger-IsSolvent : IsSolvent ledger
unfolding ◌+ℤ◌
ledger-IsSolvent = record { nonneg = omega arith; bounded = omega arith }

pub ledger-HasMaps : HasMaps ledger
ledger-HasMaps = record {
  accounts = (refl, (refl, (refl, (refl, tt))));
  tax_split = (refl, tt);
  allowed_tax_accts = (refl, tt);
  validator_pub_keys = (refl, tt);
  account_pub_keys = (refl, (refl, (refl, tt)));
}

pub payment-HasExactTotals : HasExactTotals ledger.tax_split payment
unfolding ◌+ℤ◌ ◌*ℤ◌ tax_amount mul64 wrap64 quot
payment-HasExactTotals = record {
  gross = record { above = omega arith; below = omega arith };
  deductions = record { above = omega arith; below = omega arith };
  credits = omega arith;
}

apply_transaction-supply_example :
    IsSolvent (apply_transaction toy payment ledger).0
    × (supply (apply_transaction toy payment ledger).0 ≡ supply ledger)
apply_transaction-supply_example =
    apply_transaction-supply toy payment ledger ledger-IsSolvent payment-HasExactTotals

apply_account_create-Opens_example :
    Opens toy create ledger
      (apply_account_create toy create ledger)
      (validate_account_create toy create ledger)
apply_account_create-Opens_example = apply_account_create-Opens toy create ledger

apply_account_close-Closes_example :
    Closes close ledger
      (apply_account_close toy close ledger)
      (validate_account_close toy close ledger)
apply_account_close-Closes_example =
    apply_account_close-Closes toy close ledger ledger-HasMaps.accounts ledger-IsSolvent

abbrev pub applied : State
unfolding apply_block apply_creates apply_payments apply_closes apply_each
applied = (apply_block toy next_block (clone ledger)).0

pub next_block-accepted : validate_block toy next_block genesis_block ledger ≡ ok applied
unfolding applied validate_block check_header block_hash block_sign_bytes verify add64 wrap64 ◌+ℤ◌
    net_to_payee tax_amount sub64 mul64 ◌-ℤ◌ ◌*ℤ◌ quot validate_transaction check_fields check_items
    check_totals check_funds check_signature transaction_sign_bytes balance account_pub_key
    apply_transaction transfer apply_account_create validate_account_create check_create_fields
    check_create_signature verify_any_validator account_create_sign_bytes parse_public_key
    open_account apply_account_close validate_account_close check_close_account check_close_key
    check_destination check_close_signature account_close_sign_bytes close_account clone add_balance
    sub_balance
next_block-accepted = refl

validate_block-IsLinked_example :
    IsLinked toy next_block genesis_block ledger
    × (apply_block toy next_block (clone ledger) ≡ (applied, none))
validate_block-IsLinked_example =
    validate_block-IsLinked toy next_block genesis_block ledger applied next_block-accepted

validate_block-Preserves_example : Preserves ledger applied
validate_block-Preserves_example =
    validate_block-Preserves toy next_block genesis_block ledger applied ledger-HasMaps
      ledger-IsSolvent (payment-HasExactTotals, tt) next_block-accepted

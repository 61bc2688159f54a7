-- ===== src/Ledger/Payment.antt =====
-- internal/ledger/state.go: ValidateTransaction and ApplyTransaction.
pub mod Postings
pub mod Refines
pub mod Supply
pub mod Exact
use pixie_block.Base.{
  String, not, ◌||◌, ⊤, List, [], ◌∷◌, none, some, ◌==◌, length, nat_eq, if◌then◌else◌,
}
use pixie_block.Base.Int.{ℤ, pos, ltb_ℤ, leb_ℤ, eqb_ℤ}
use pixie_block.Base.Int64.{add64}
use pixie_block.Base.Dict.{lookup, contains}
use pixie_block.Base.Result.{ok, ◌>>=◌, ◌>>◌, guard, or_fail, wrap_err}
use pixie_block.Errors
use pixie_block.Errors.{Error, Result}
use pixie_block.Domain.{
  Discount, LineItem, PaymentTransaction, tax_amount, gross_amount, tax_total, discount_total,
  net_to_payee,
}
use pixie_block.Crypto.{Primitives, transaction_sign_bytes, verify}
use pixie_block.Ledger.State.{
  State, balance, account_pub_key, add_balance, sub_balance, Action, check_then, and_then, modify,
}

-- The inner loop over the tax codes of an item.
check_tax_codes : State → List String → Result ⊤
check_tax_codes s [] = ok tt
check_tax_codes s (code ∷ codes) = do
  split ← or_fail (lookup code s.tax_split) (Errors.unknown_tax_code code)
  guard (contains split.tax_account s.allowed_tax_accts)
      (Errors.tax_account_not_allowed split.tax_account)
  check_tax_codes s codes

check_discounts : State → List Discount → Result ⊤
check_discounts s [] = ok tt
check_discounts s (d ∷ ds) = do
  guard (not (ltb_ℤ d.amount (pos 0))) Errors.discount_negative
  guard (contains d.tax_account s.allowed_tax_accts)
      (Errors.discount_account_not_allowed d.tax_account)
  check_discounts s ds

check_item : State → LineItem → Result ⊤
unfolding check_tax_codes check_discounts
check_item s item = do
  guard (not (leb_ℤ item.amount (pos 0))) Errors.line_item_not_positive
  check_tax_codes s item.tax_codes
  check_discounts s item.discounts

unfoldable pub check_items : State → List LineItem → Result ⊤
unfolding check_item
check_items s [] = ok tt
check_items s (item ∷ items) = do check_item s item; check_items s items

unfoldable pub check_fields : PaymentTransaction → Result ⊤
check_fields tx = do
  guard (not (tx.id == "")) Errors.transaction_id_required
  guard (not (tx.payer.id == "" || tx.payee.id == "")) Errors.payer_and_payee_required
  guard (not (nat_eq (length tx.items) 0)) Errors.line_item_required

-- The totals of the payment; `taxTotal+discountTotal+net != gross` is tested with int64 sums.
unfoldable pub check_totals : State → PaymentTransaction → Result ⊤
check_totals s tx =
    let gross = gross_amount tx in
    let taxes = tax_total s.tax_split tx in
    let discounts = discount_total tx in
    let net = net_to_payee s.tax_split tx in
    do
      guard (not (leb_ℤ gross (pos 0))) Errors.gross_not_positive
      guard (eqb_ℤ (add64 (add64 taxes discounts) net) gross)
          (Errors.split_mismatch taxes discounts net gross)
      guard (not (ltb_ℤ net (pos 0))) Errors.net_negative

unfoldable pub check_funds : State → PaymentTransaction → Result ⊤
check_funds s tx = do
  payer_balance ← or_fail (balance tx.payer.id s) (Errors.payer_not_found tx.payer.id)
  guard (not (ltb_ℤ payer_balance (gross_amount tx)))
      (Errors.insufficient_balance payer_balance (gross_amount tx))

module _ (p : Primitives) where
  unfoldable pub check_signature : State → PaymentTransaction → Result ⊤
  check_signature s tx = do
    guard (not (nat_eq (length tx.signature) 0)) Errors.transaction_signature_required
    sign_bytes ← wrap_err Errors.canonical_bytes (transaction_sign_bytes p tx)
    payer_pub ← or_fail (account_pub_key tx.payer.id s) (Errors.payer_key_not_found tx.payer.id)
    guard (verify p payer_pub sign_bytes tx.signature) Errors.invalid_transaction_signature

  unfoldable pub validate_transaction : PaymentTransaction → State → Result ⊤
  validate_transaction tx s = do
    check_fields tx
    check_items s tx.items
    check_totals s tx
    check_funds s tx
    check_signature s tx

-- The loops of ApplyTransaction that credit the tax accounts.
credit_taxes : ℤ → List String → Action
credit_taxes amount [] s = (s, none)
credit_taxes amount (code ∷ codes) s = elim (lookup code s.tax_split) [
  | none ↦ (s, some (Errors.unknown_tax_code code))
  | some split ↦
      credit_taxes amount codes (add_balance split.tax_account (tax_amount split amount) s)
]

credit_discounts : List Discount → State → State
credit_discounts [] s = s
credit_discounts (d ∷ ds) s =
    credit_discounts ds (if eqb_ℤ d.amount (pos 0) then s else add_balance d.tax_account d.amount s)

credit_items : List LineItem → Action
unfolding credit_taxes credit_discounts
credit_items [] s = (s, none)
credit_items (item ∷ items) s =
    and_then (credit_taxes item.amount item.tax_codes)
      (and_then (modify (credit_discounts item.discounts)) (credit_items items)) s

-- What follows the validation: the payer pays gross, the payee receives net, then the tax accounts.
unfoldable pub transfer : PaymentTransaction → Action
unfolding credit_items
transfer tx s =
    let gross = gross_amount tx in
    let net = net_to_payee s.tax_split tx in
    credit_items tx.items (add_balance tx.payee.id net (sub_balance tx.payer.id gross s))

module _ (p : Primitives) where
  unfoldable pub apply_transaction : PaymentTransaction → Action
  apply_transaction tx = check_then (validate_transaction p tx) (transfer tx)

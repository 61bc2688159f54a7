-- ===== src/Domain.antt =====
-- internal/domain: accounts, transactions and blocks, and the totals of a payment.
-- Ids, tax codes and account types are texts; amounts and balances are int64 values. A byte string
-- is a list of numbers. A time is a number of seconds since the zero time of Go, 0001-01-01 UTC.
pub mod Totals
pub mod Sums
pub mod Products
use pixie_block.Base.{ℕ, String, List, Option, none, some, [], ◌∷◌}
use pixie_block.Base.Int.{ℤ, pos, quot}
use pixie_block.Base.Int64.{add64, sub64, mul64}
use pixie_block.Base.Dict.{Dict, lookup}

abbrev pub Bytes : Type 0
Bytes = List ℕ

abbrev pub account_type_person : String
account_type_person = "person"

abbrev pub account_type_merchant : String
account_type_merchant = "merchant"

abbrev pub account_type_treasury : String
account_type_treasury = "treasury"

pub record Account : Type 0 where
  pub id : String
  pub type : String
  pub balance : ℤ

pub record TaxSplit : Type 0 where
  pub rate_bps : ℤ
  pub tax_account : String

pub record Discount : Type 0 where
  pub code : String
  pub amount : ℤ
  pub tax_account : String

pub record LineItem : Type 0 where
  pub description : String
  pub amount : ℤ
  pub tax_codes : List String
  pub discounts : List Discount

pub record PaymentTransaction : Type 0 where
  pub id : String
  pub timestamp : ℕ
  pub payer : Account
  pub payee : Account
  pub items : List LineItem
  pub signature : Bytes

pub record AccountCreateTransaction : Type 0 where
  pub id : String
  pub timestamp : ℕ
  pub account : Account
  pub public_key : String
  pub signature : Bytes

pub record AccountCloseTransaction : Type 0 where
  pub id : String
  pub timestamp : ℕ
  pub account_id : String
  pub public_key : String
  pub destination : String
  pub signature : Bytes

pub record Block : Type 0 where
  pub height : ℤ
  pub timestamp : ℕ
  pub transactions : List PaymentTransaction
  pub account_creates : List AccountCreateTransaction
  pub account_closes : List AccountCloseTransaction
  pub previous_hash : Bytes
  pub hash : Bytes
  pub validator : String
  pub signature : Bytes

-- `taxSplit.RateBPS * i.Amount / 10000`
unfoldable pub tax_amount : TaxSplit → ℤ → ℤ
tax_amount split amount = quot (mul64 split.rate_bps amount) 10000

gross_loop : ℤ → List LineItem → ℤ
gross_loop total [] = total
gross_loop total (item ∷ items) = gross_loop (add64 total item.amount) items

unfoldable pub gross_amount : PaymentTransaction → ℤ
unfolding gross_loop
gross_amount tx = gross_loop (pos 0) tx.items

-- A code that the table lacks is passed over.
abbrev add_tax : Option TaxSplit → ℤ → ℤ → ℤ
add_tax none amount total = total
add_tax (some split) amount total = add64 total (tax_amount split amount)

item_tax_loop : Dict TaxSplit → ℤ → ℤ → List String → ℤ
item_tax_loop taxes amount total [] = total
item_tax_loop taxes amount total (code ∷ codes) =
    item_tax_loop taxes amount (add_tax (lookup code taxes) amount total) codes

unfoldable pub item_tax_total : Dict TaxSplit → LineItem → ℤ
unfolding item_tax_loop
item_tax_total taxes item = item_tax_loop taxes item.amount (pos 0) item.tax_codes

tax_loop : Dict TaxSplit → ℤ → List LineItem → ℤ
unfolding item_tax_total
tax_loop taxes total [] = total
tax_loop taxes total (item ∷ items) = tax_loop taxes (add64 total (item_tax_total taxes item)) items

unfoldable pub tax_total : Dict TaxSplit → PaymentTransaction → ℤ
unfolding tax_loop
tax_total taxes tx = tax_loop taxes (pos 0) tx.items

item_discount_loop : ℤ → List Discount → ℤ
item_discount_loop total [] = total
item_discount_loop total (d ∷ ds) = item_discount_loop (add64 total d.amount) ds

unfoldable pub item_discount_total : LineItem → ℤ
unfolding item_discount_loop
item_discount_total item = item_discount_loop (pos 0) item.discounts

discount_loop : ℤ → List LineItem → ℤ
unfolding item_discount_total
discount_loop total [] = total
discount_loop total (item ∷ items) = discount_loop (add64 total (item_discount_total item)) items

unfoldable pub discount_total : PaymentTransaction → ℤ
unfolding discount_loop
discount_total tx = discount_loop (pos 0) tx.items

unfoldable pub net_to_payee : Dict TaxSplit → PaymentTransaction → ℤ
unfolding gross_amount tax_total discount_total
net_to_payee taxes tx = sub64 (sub64 (gross_amount tx) (tax_total taxes tx)) (discount_total tx)

-- ===== src/Domain/Products.antt =====
-- internal/domain/transaction.go: the taxes of a payment over the unbounded integers, the products of
-- rates and amounts included.
use pixie_block.Base.{String, List, [], ◌∷◌, Option, none, some, ◌≡◌, refl, ap, ◌∙◌, ⊤}
use pixie_block.Base.Int.{ℤ, pos, ◌+ℤ◌, ◌-ℤ◌, ◌*ℤ◌, quot}
use pixie_block.Base.Int64.{wrap64, IsInt64, wrap64_exact, mul64}
use pixie_block.Base.Dict.{Dict, lookup}
use pixie_block.Domain.{TaxSplit, LineItem, PaymentTransaction, tax_amount, net_to_payee}
use pixie_block.Domain.Sums.{gross_sum, code_tax, codes_tax, tax_sum, discount_sum}
use pixie_block.Domain.Totals.{net_to_payee-wrap64}

-- `rate * amount / 10000`, rounded towards zero.
abbrev pub true_code_tax : Option TaxSplit → ℤ → ℤ
true_code_tax none amount = pos 0
true_code_tax (some split) amount = quot (split.rate_bps *ℤ amount) 10000

abbrev pub true_codes_tax : Dict TaxSplit → ℤ → List String → ℤ
true_codes_tax taxes amount [] = pos 0
true_codes_tax taxes amount (code ∷ codes) =
    true_code_tax (lookup code taxes) amount +ℤ true_codes_tax taxes amount codes

abbrev pub true_tax_sum : Dict TaxSplit → List LineItem → ℤ
true_tax_sum taxes [] = pos 0
true_tax_sum taxes (item ∷ items) =
    true_codes_tax taxes item.amount item.tax_codes +ℤ true_tax_sum taxes items

-- The product for a code that the table knows is an int64 value.
abbrev FitsCode : Option TaxSplit → ℤ → Type 0
FitsCode none amount = ⊤
FitsCode (some split) amount = IsInt64 (split.rate_bps *ℤ amount)

abbrev FitsCodes : Dict TaxSplit → ℤ → List String → Type 0
FitsCodes taxes amount [] = ⊤
FitsCodes taxes amount (code ∷ codes) =
    FitsCode (lookup code taxes) amount × FitsCodes taxes amount codes

abbrev pub HasProducts : Dict TaxSplit → List LineItem → Type 0
HasProducts taxes [] = ⊤
HasProducts taxes (item ∷ items) =
    FitsCodes taxes item.amount item.tax_codes × HasProducts taxes items

code_tax_true :
    (o : Option TaxSplit) (amount : ℤ)
    → FitsCode o amount
    → code_tax o amount ≡ true_code_tax o amount
unfolding tax_amount mul64
code_tax_true none amount f = refl
code_tax_true (some split) amount f = ap (λ x. quot x 10000) (wrap64_exact _ f)

codes_tax_true :
    (taxes : Dict TaxSplit) (amount : ℤ) (codes : List String)
    → FitsCodes taxes amount codes
    → codes_tax taxes amount codes ≡ true_codes_tax taxes amount codes
codes_tax_true taxes amount [] f = refl
codes_tax_true taxes amount (code ∷ codes) f =
    cc (code_tax_true (lookup code taxes) amount f.0, codes_tax_true taxes amount codes f.1)

tax_sum_true :
    (taxes : Dict TaxSplit) (items : List LineItem)
    → HasProducts taxes items
    → tax_sum taxes items ≡ true_tax_sum taxes items
tax_sum_true taxes [] f = refl
tax_sum_true taxes (item ∷ items) f =
    cc (codes_tax_true taxes item.amount item.tax_codes f.0, tax_sum_true taxes items f.1)

-- For every payment and tax table such that the product of the rate and the item's amount is an int64
-- value for each code of an item that the table knows: the net amount is the 64-bit wrapping of the
-- sum of the item amounts, less the taxes, each rate times amount over 10000 rounded towards zero,
-- less the sum of the discounts, all computed over the unbounded integers. The wrapping of the partial
-- sums in the loops makes no other difference.
pub net_to_payee_exact :
    (taxes : Dict TaxSplit) (tx : PaymentTransaction)
    → HasProducts taxes tx.items
    → net_to_payee taxes tx
      ≡ wrap64 (gross_sum tx.items -ℤ true_tax_sum taxes tx.items -ℤ discount_sum tx.items)
net_to_payee_exact taxes tx f =
    net_to_payee-wrap64 taxes tx
    ∙ ap (λ t. wrap64 (gross_sum tx.items -ℤ t -ℤ discount_sum tx.items))
        (tax_sum_true taxes tx.items f)

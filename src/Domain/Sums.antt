-- ===== src/Domain/Sums.antt =====
-- internal/domain/transaction.go: the sums of a payment over the unbounded integers. The terms of the
-- tax sum are what the code computes for a code and an amount, its wrapping product included.
use pixie_block.Base.{String, List, [], ◌∷◌, Option, none, some}
use pixie_block.Base.Int.{ℤ, pos, ◌+ℤ◌}
use pixie_block.Base.Dict.{Dict, lookup}
use pixie_block.Domain.{TaxSplit, Discount, LineItem, tax_amount}

abbrev pub gross_sum : List LineItem → ℤ
gross_sum [] = pos 0
gross_sum (item ∷ items) = item.amount +ℤ gross_sum items

-- The tax that one code puts on an amount, 0 for an unknown code.
abbrev pub code_tax : Option TaxSplit → ℤ → ℤ
code_tax none amount = pos 0
code_tax (some split) amount = tax_amount split amount

abbrev pub codes_tax : Dict TaxSplit → ℤ → List String → ℤ
codes_tax taxes amount [] = pos 0
codes_tax taxes amount (code ∷ codes) =
    code_tax (lookup code taxes) amount +ℤ codes_tax taxes amount codes

abbrev pub tax_sum : Dict TaxSplit → List LineItem → ℤ
tax_sum taxes [] = pos 0
tax_sum taxes (item ∷ items) = codes_tax taxes item.amount item.tax_codes +ℤ tax_sum taxes items

abbrev pub discounts_sum : List Discount → ℤ
discounts_sum [] = pos 0
discounts_sum (d ∷ ds) = d.amount +ℤ discounts_sum ds

abbrev pub discount_sum : List LineItem → ℤ
discount_sum [] = pos 0
discount_sum (item ∷ items) = discounts_sum item.discounts +ℤ discount_sum items

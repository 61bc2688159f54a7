-- ===== src/Domain/Totals.antt =====
-- internal/domain/transaction.go: the int64 totals and the sums without wrapping.
use pixie_block.Base.{String, List, [], ◌∷◌, Option, none, some, ◌≡◌, sym, ◌∙◌, ap}
use pixie_block.Base.Int.{ℤ, pos, ◌+ℤ◌, ◌-ℤ◌, int_laws}
use pixie_block.Base.Int64.{
  wrap64, IsInt64, wrap64-add64, add64_wraps, sub64_wraps, wrap64_exact, zero-IsInt64,
}
use pixie_block.Base.Dict.{Dict, lookup}
use pixie_block.Domain.{
  TaxSplit, Discount, LineItem, PaymentTransaction, tax_amount, gross_loop, gross_amount, add_tax,
  item_tax_loop, item_tax_total, tax_loop, tax_total, item_discount_loop, item_discount_total,
  discount_loop, discount_total, net_to_payee,
}
use pixie_block.Domain.Sums.{gross_sum, code_tax, codes_tax, tax_sum, discounts_sum, discount_sum}

+ℤ_assoc : (a b c : ℤ) → a +ℤ b +ℤ c ≡ a +ℤ (b +ℤ c)
+ℤ_assoc a b c = omega int_laws

+ℤ-zero : (a : ℤ) → a +ℤ pos 0 ≡ a
+ℤ-zero a = omega int_laws

zero-+ℤ : (a : ℤ) → pos 0 +ℤ a ≡ a
zero-+ℤ a = omega int_laws

wrap64-zero : wrap64 (pos 0) ≡ pos 0
wrap64-zero = wrap64_exact (pos 0) zero-IsInt64

-- Loops that start from a wrapped total go on from the exact one.
gross_loop-wrap64 :
    (t : ℤ) (items : List LineItem) → gross_loop (wrap64 t) items ≡ wrap64 (t +ℤ gross_sum items)
unfolding gross_loop
gross_loop-wrap64 t [] = rw +ℤ-zero
gross_loop-wrap64 t (item ∷ items) =
    rw (wrap64-add64, gross_loop-wrap64 (t +ℤ item.amount) items, +ℤ_assoc)

add_tax-wrap64 :
    (o : Option TaxSplit) (amount t : ℤ)
    → add_tax o amount (wrap64 t) ≡ wrap64 (t +ℤ code_tax o amount)
add_tax-wrap64 none amount t = rw +ℤ-zero
add_tax-wrap64 (some split) amount t = wrap64-add64 t (tax_amount split amount)

item_tax_loop-wrap64 :
    (taxes : Dict TaxSplit) (amount t : ℤ) (codes : List String)
    → item_tax_loop taxes amount (wrap64 t) codes ≡ wrap64 (t +ℤ codes_tax taxes amount codes)
unfolding item_tax_loop
item_tax_loop-wrap64 taxes amount t [] = rw +ℤ-zero
item_tax_loop-wrap64 taxes amount t (code ∷ codes) = rw (
  add_tax-wrap64 (lookup code taxes) amount t,
  item_tax_loop-wrap64 taxes amount (t +ℤ code_tax (lookup code taxes) amount) codes,
  +ℤ_assoc,
)

item_tax_total-wrap64 :
    (taxes : Dict TaxSplit) (item : LineItem)
    → item_tax_total taxes item ≡ wrap64 (codes_tax taxes item.amount item.tax_codes)
unfolding item_tax_total
item_tax_total-wrap64 taxes item =
    ap (λ t. item_tax_loop taxes item.amount t item.tax_codes) (sym wrap64-zero)
    ∙ item_tax_loop-wrap64 taxes item.amount (pos 0) item.tax_codes
    ∙ ap wrap64 (zero-+ℤ _)

tax_loop-wrap64 :
    (taxes : Dict TaxSplit) (t : ℤ) (items : List LineItem)
    → tax_loop taxes (wrap64 t) items ≡ wrap64 (t +ℤ tax_sum taxes items)
unfolding tax_loop
tax_loop-wrap64 taxes t [] = rw +ℤ-zero
tax_loop-wrap64 taxes t (item ∷ items) = rw (
  item_tax_total-wrap64 taxes item,
  add64_wraps,
  tax_loop-wrap64 taxes (t +ℤ codes_tax taxes item.amount item.tax_codes) items,
  +ℤ_assoc,
)

item_discount_loop-wrap64 :
    (t : ℤ) (ds : List Discount) → item_discount_loop (wrap64 t) ds ≡ wrap64 (t +ℤ discounts_sum ds)
unfolding item_discount_loop
item_discount_loop-wrap64 t [] = rw +ℤ-zero
item_discount_loop-wrap64 t (d ∷ ds) =
    rw (wrap64-add64, item_discount_loop-wrap64 (t +ℤ d.amount) ds, +ℤ_assoc)

item_discount_total-wrap64 :
    (item : LineItem) → item_discount_total item ≡ wrap64 (discounts_sum item.discounts)
unfolding item_discount_total
item_discount_total-wrap64 item =
    ap (λ t. item_discount_loop t item.discounts) (sym wrap64-zero)
    ∙ item_discount_loop-wrap64 (pos 0) item.discounts
    ∙ ap wrap64 (zero-+ℤ _)

discount_loop-wrap64 :
    (t : ℤ) (items : List LineItem)
    → discount_loop (wrap64 t) items ≡ wrap64 (t +ℤ discount_sum items)
unfolding discount_loop
discount_loop-wrap64 t [] = rw +ℤ-zero
discount_loop-wrap64 t (item ∷ items) = rw (
  item_discount_total-wrap64 item,
  add64_wraps,
  discount_loop-wrap64 (t +ℤ discounts_sum item.discounts) items,
  +ℤ_assoc,
)

pub gross_amount-wrap64 : (tx : PaymentTransaction) → gross_amount tx ≡ wrap64 (gross_sum tx.items)
unfolding gross_amount
gross_amount-wrap64 tx =
    ap (λ t. gross_loop t tx.items) (sym wrap64-zero)
    ∙ gross_loop-wrap64 (pos 0) tx.items
    ∙ ap wrap64 (zero-+ℤ _)

pub tax_total-wrap64 :
    (taxes : Dict TaxSplit) (tx : PaymentTransaction)
    → tax_total taxes tx ≡ wrap64 (tax_sum taxes tx.items)
unfolding tax_total
tax_total-wrap64 taxes tx =
    ap (λ t. tax_loop taxes t tx.items) (sym wrap64-zero)
    ∙ tax_loop-wrap64 taxes (pos 0) tx.items
    ∙ ap wrap64 (zero-+ℤ _)

pub discount_total-wrap64 :
    (tx : PaymentTransaction) → discount_total tx ≡ wrap64 (discount_sum tx.items)
unfolding discount_total
discount_total-wrap64 tx =
    ap (λ t. discount_loop t tx.items) (sym wrap64-zero)
    ∙ discount_loop-wrap64 (pos 0) tx.items
    ∙ ap wrap64 (zero-+ℤ _)

-- The net amount is the wrapping of the sums, with the tax amounts as the code computes them.
pub net_to_payee-wrap64 :
    (taxes : Dict TaxSplit) (tx : PaymentTransaction)
    → net_to_payee taxes tx
      ≡ wrap64 (gross_sum tx.items -ℤ tax_sum taxes tx.items -ℤ discount_sum tx.items)
unfolding net_to_payee
net_to_payee-wrap64 taxes tx = rw (
  gross_amount-wrap64 tx,
  tax_total-wrap64 taxes tx,
  discount_total-wrap64 tx,
  sub64_wraps,
  sub64_wraps,
)

-- Where the exact sums are int64 values, the totals are those sums.
pub totals_exact :
    (taxes : Dict TaxSplit) (tx : PaymentTransaction)
    → IsInt64 (gross_sum tx.items)
    → IsInt64 (tax_sum taxes tx.items)
    → IsInt64 (discount_sum tx.items)
    → (gross_amount tx ≡ gross_sum tx.items)
      × (tax_total taxes tx ≡ tax_sum taxes tx.items)
      × (discount_total tx ≡ discount_sum tx.items)
totals_exact taxes tx g t d = (
  gross_amount-wrap64 tx ∙ wrap64_exact _ g,
  tax_total-wrap64 taxes tx ∙ wrap64_exact _ t,
  discount_total-wrap64 tx ∙ wrap64_exact _ d,
)

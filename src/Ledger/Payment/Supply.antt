-- ===== src/Ledger/Payment/Supply.antt =====
-- internal/ledger/state.go: ApplyTransaction and the money supply, the sum of all balances.
use pixie_block.Base.{
  String, ⊤, List, [], ◌∷◌, ◌++◌, Option, ◌≡◌, refl, sym, ap, ◌∙◌, inl, inr, Option-cases,
  Bool-cases, arith,
}
use pixie_block.Base.Int.{ℤ, pos, ◌+ℤ◌, ◌-ℤ◌, eqb_ℤ, eqb_ℤ→eq, int_laws}
use pixie_block.Base.Int64.{
  wrap64, residue, residue_zero, residue-lt, residue-wrap64, residue-+ℤ, residue_sub,
}
use pixie_block.Base.Dict.{Dict, lookup, insert, sum_by, measure_at, sum_by-insert}
use pixie_block.Base.Result.{ok, err}
use pixie_block.Errors.{Error, Result}
use pixie_block.Domain.{Account, TaxSplit, Discount, LineItem, PaymentTransaction}
use pixie_block.Domain.Sums.{gross_sum, codes_tax, tax_sum, discounts_sum, discount_sum}
use pixie_block.Domain.Totals.{gross_amount-wrap64, net_to_payee-wrap64}
use pixie_block.Crypto.{Primitives}
use pixie_block.Ledger.State.{State, account_at}
use pixie_block.Ledger.Payment.{validate_transaction, apply_transaction}
use pixie_block.Ledger.Payment.Postings.{
  Posting, code_postings, discount_postings, item_postings, postings, postings_sum, post, post_all,
}
use pixie_block.Ledger.Payment.Refines.{Posts, apply_transaction-Posts}

abbrev pub balance_of : Account → ℤ
balance_of a = a.balance

-- The sum of all balances, over the unbounded integers.
abbrev pub supply : State → ℤ
supply s = sum_by balance_of s.accounts

pub measure_at-account_at :
    (id : String) (d : Dict Account) → measure_at balance_of id d ≡ (account_at id d).balance
measure_at-account_at id d = ground arith

postings_sum-append :
    (ps qs : List Posting) → postings_sum (ps ++ qs) ≡ postings_sum ps +ℤ postings_sum qs
postings_sum-append [] qs = omega int_laws
postings_sum-append ((id, z) ∷ ps) qs = rw (postings_sum-append ps qs) (omega int_laws)

codes_sum :
    (taxes : Dict TaxSplit) (amount : ℤ) (codes : List String)
    → postings_sum (code_postings taxes amount codes) ≡ codes_tax taxes amount codes
codes_sum taxes amount [] = refl
codes_sum taxes amount (code ∷ codes) = elim (Option-cases (lookup code taxes)) [
  | inl e ↦ rw e (codes_sum taxes amount codes ∙ omega int_laws)
  | inr (split, e) ↦ rw e (rw (codes_sum taxes amount codes))
]

discounts_posted : (ds : List Discount) → postings_sum (discount_postings ds) ≡ discounts_sum ds
discounts_posted [] = refl
discounts_posted (d ∷ ds) = elim (Bool-cases (eqb_ℤ d.amount (pos 0))) [
  | inl e ↦ rw e (discounts_posted ds ∙ skipped (eqb_ℤ→eq d.amount (pos 0) e))
  | inr e ↦ rw e (rw (discounts_posted ds))
]
  where
    skipped : d.amount ≡ pos 0 → discounts_sum ds ≡ d.amount +ℤ discounts_sum ds
    skipped z = rw z (omega int_laws)

pub items_posted :
    (taxes : Dict TaxSplit) (items : List LineItem)
    → postings_sum (item_postings taxes items) ≡ tax_sum taxes items +ℤ discount_sum items
items_posted taxes [] = omega int_laws
items_posted taxes (item ∷ items) =
    rw
      (
        postings_sum-append,
        postings_sum-append,
        codes_sum taxes item.amount item.tax_codes,
        discounts_posted item.discounts,
        items_posted taxes items,
      )
      (omega int_laws)

-- What the payer pays comes back to zero, modulo 2 ^ 64, with what the others receive.
settled : (g t d : ℤ) → residue (pos 0 -ℤ wrap64 g +ℤ (wrap64 (g -ℤ t -ℤ d) +ℤ (t +ℤ d))) ≡ 0
settled g t d =
    let a = wrap64 g in
    let n = wrap64 (g -ℤ t -ℤ d) in
    omega (
      arith,
      residue-wrap64 g,
      residue-wrap64 (g -ℤ t -ℤ d),
      residue_sub (g -ℤ t) d,
      residue_sub g t,
      residue_sub (pos 0) a,
      residue_zero,
      residue-+ℤ t d,
      residue-+ℤ n (t +ℤ d),
      residue-+ℤ (pos 0 -ℤ a) (n +ℤ (t +ℤ d)),
      residue-lt (pos 0 -ℤ a),
      residue-lt n,
      residue-lt g,
      residue-lt t,
      residue-lt d,
      residue-lt (g -ℤ t),
    )

residue-post :
    (q : Posting) (d : Dict Account)
    → residue (sum_by balance_of (post q d)) ≡ residue (sum_by balance_of d +ℤ q.1)
unfolding post
residue-post (id, z) d =
    let old = (account_at id d).balance in
    let a = record (account_at id d) { balance = wrap64 (old +ℤ z) } in
    let total = sum_by balance_of d in
    let total' = sum_by balance_of (insert id a d) in
    omega (
      arith,
      ap residue (
          ap (λ m. total' +ℤ m) (sym (measure_at-account_at id d))
          ∙ sum_by-insert balance_of id a d),
      residue-+ℤ total' old,
      residue-+ℤ total (wrap64 (old +ℤ z)),
      residue-wrap64 (old +ℤ z),
      residue-+ℤ old z,
      residue-+ℤ total z,
      residue-lt total',
      residue-lt total,
      residue-lt old,
      residue-lt z,
    )

residue-post_all :
    (qs : List Posting) (d : Dict Account)
    → residue (sum_by balance_of (post_all qs d)) ≡ residue (sum_by balance_of d +ℤ postings_sum qs)
residue-post_all [] d = ap residue (omega int_laws)
residue-post_all (q ∷ qs) d =
    residue-post_all qs (post q d)
    ∙ omega (
      arith,
      residue-post q d,
      residue-+ℤ (sum_by balance_of (post q d)) (postings_sum qs),
      residue-+ℤ (sum_by balance_of d) q.1,
      residue-+ℤ q.1 (postings_sum qs),
      residue-+ℤ (sum_by balance_of d) (q.1 +ℤ postings_sum qs),
    )

postings-settled :
    (taxes : Dict TaxSplit) (tx : PaymentTransaction)
    → residue (postings_sum (postings taxes tx)) ≡ 0
postings-settled taxes tx =
    rw (gross_amount-wrap64 tx, net_to_payee-wrap64 taxes tx, items_posted taxes tx.items)
      (settled (gross_sum tx.items) (tax_sum taxes tx.items) (discount_sum tx.items))

Posts-supply_mod :
    (tx : PaymentTransaction) (s : State) (v : Result ⊤) (r : State × Option Error)
    → Posts tx s v r
    → residue (supply r.0) ≡ residue (supply s)
Posts-supply_mod tx s (ok v) r h =
    ap (λ x. residue (supply x.0)) h
    ∙ residue-post_all (postings s.tax_split tx) s.accounts
    ∙ omega (
      arith,
      postings-settled s.tax_split tx,
      residue-+ℤ (supply s) (postings_sum (postings s.tax_split tx)),
      residue-lt (supply s),
    )
Posts-supply_mod tx s (err e) r h = ap (λ x. residue (supply x.0)) h

-- For every payment and state, whether ApplyTransaction succeeds or fails, the sum of all balances
-- after it is the sum before it, modulo 2 ^ 64.
pub apply_transaction-supply_mod :
    (p : Primitives) (tx : PaymentTransaction) (s : State)
    → residue (supply (apply_transaction p tx s).0) ≡ residue (supply s)
apply_transaction-supply_mod p tx s =
    Posts-supply_mod tx s (validate_transaction p tx s) (apply_transaction p tx s)
      (apply_transaction-Posts p tx s)

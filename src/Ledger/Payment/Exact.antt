-- ===== src/Ledger/Payment/Exact.antt =====
-- internal/ledger/state.go: ApplyTransaction, the money supply and the signs of the balances.
use pixie_block.Base.{⊤, List, [], ◌∷◌, Option, none, ◌≡◌, refl, sym, ap, ◌∙◌, arith, All}
use pixie_block.Base.Int.{ℤ, pos, pos_part, neg_part, ◌+ℤ◌, ◌-ℤ◌, ◌≤ℤ◌, int_laws}
use pixie_block.Base.Int64.{wrap64, wrap64_exact, IsInt64, IsInt64-of_bounds, max_int64}
use pixie_block.Base.Dict.{
  Dict, insert, sum_by, sum_by-insert, AllNonneg, insert-AllNonneg, measure_at_nonneg,
  measure_at-le-sum_by,
}
use pixie_block.Base.Result.{ok, err}
use pixie_block.Errors.{Error, Result}
use pixie_block.Domain.{Account, TaxSplit, PaymentTransaction, gross_amount, net_to_payee}
use pixie_block.Domain.Sums.{gross_sum, tax_sum, discount_sum}
use pixie_block.Domain.Totals.{gross_amount-wrap64, net_to_payee-wrap64}
use pixie_block.Crypto.{Primitives}
use pixie_block.Ledger.State.{State, account_at, balance}
use pixie_block.Ledger.Payment.{check_totals, check_funds, validate_transaction, apply_transaction}
use pixie_block.Ledger.Payment.Postings.{
  Posting, item_postings, postings, postings_sum, post, post_all, post_state,
}
use pixie_block.Ledger.Payment.Refines.{
  Posts, IsValidated, apply_transaction-Posts, validate_transaction-IsValidated,
}
use pixie_block.Ledger.Payment.Supply.{balance_of, supply, items_posted, measure_at-account_at}

-- No balance is negative, and together they are an int64 value.
pub record IsSolvent (s : State) : Type 0 where
  pub nonneg : AllNonneg balance_of s.accounts
  pub bounded : supply s ≤ℤ max_int64

abbrev pub Nonneg : Posting → Type 0
Nonneg q = pos 0 ≤ℤ q.1

-- No int64 total of the payment wraps, where the tax amounts are those that the code computes, and no
-- tax or discount posting is negative.
pub record HasExactTotals (taxes : Dict TaxSplit) (tx : PaymentTransaction) : Type 0 where
  pub gross : IsInt64 (gross_sum tx.items)
  pub deductions : IsInt64 (tax_sum taxes tx.items +ℤ discount_sum tx.items)
  pub credits : All Nonneg (item_postings taxes tx.items)

-- A posting that keeps its balance within 0 and the largest int64.
pub post_exact :
    (q : Posting) (d : Dict Account)
    → AllNonneg balance_of d
    → pos 0 ≤ℤ (account_at q.0 d).balance +ℤ q.1
    → (account_at q.0 d).balance +ℤ q.1 ≤ℤ max_int64
    → AllNonneg balance_of (post q d) × (sum_by balance_of (post q d) ≡ sum_by balance_of d +ℤ q.1)
unfolding post
post_exact (id, z) d n lo hi =
    let old = (account_at id d).balance in
    let exact : wrap64 (old +ℤ z) ≡ old +ℤ z =
      wrap64_exact _ (IsInt64-of_bounds _ (omega (arith, lo)) hi) in
    let a = record (account_at id d) { balance = wrap64 (old +ℤ z) } in
    (
      insert-AllNonneg balance_of id a d n (rw exact lo),
      sum_after _ _ _ (
          ap (λ m. sum_by balance_of (insert id a d) +ℤ m) (sym (measure_at-account_at id d))
          ∙ sum_by-insert balance_of id a d
          ∙ ap (λ b. sum_by balance_of d +ℤ b) exact),
    )
  where
    sum_after : (total total' o : ℤ) → total' +ℤ o ≡ total +ℤ (o +ℤ z) → total' ≡ total +ℤ z
    sum_after total total' o h = omega (int_laws, ap pos_part h, ap neg_part h)

postings_sum_nonneg : (qs : List Posting) → All Nonneg qs → pos 0 ≤ℤ postings_sum qs
postings_sum_nonneg [] h = omega arith
postings_sum_nonneg (q ∷ qs) h = omega (int_laws, postings_sum_nonneg qs h.1)

credits_posted :
    (qs : List Posting) (d : Dict Account)
    → AllNonneg balance_of d
    → All Nonneg qs
    → sum_by balance_of d +ℤ postings_sum qs ≤ℤ max_int64
    → AllNonneg balance_of (post_all qs d)
      × (sum_by balance_of (post_all qs d) ≡ sum_by balance_of d +ℤ postings_sum qs)
credits_posted [] d n c hi = (n, omega int_laws)
credits_posted (q ∷ qs) d n c hi =
    let old : ℤ = (account_at q.0 d).balance in
    let low : pos 0 ≤ℤ old =
      rw (measure_at-account_at q.0 d) at (measure_at_nonneg balance_of q.0 d n) in
    let high : old ≤ℤ sum_by balance_of d =
      rw (measure_at-account_at q.0 d) at (measure_at-le-sum_by balance_of q.0 d n) in
    let rest : pos 0 ≤ℤ postings_sum qs = postings_sum_nonneg qs c.1 in
    let (n', e) =
      post_exact q d n (omega (int_laws, low, c.0)) (omega (int_laws, high, hi, rest)) in
    let (n'', e') = credits_posted qs (post q d) n' c.1 (rw e (omega (int_laws, hi))) in
    (n'', e' ∙ rw e (omega int_laws))

pub check_funds-covers :
    (tx : PaymentTransaction) (s : State)
    → check_funds s tx ≡ ok tt
    → gross_amount tx ≤ℤ (account_at tx.payer.id s.accounts).balance
unfolding check_funds balance
check_funds-covers tx s h = ground arith

pub check_totals-signs :
    (tx : PaymentTransaction) (s : State)
    → check_totals s tx ≡ ok tt
    → (pos 0 ≤ℤ gross_amount tx) × (pos 0 ≤ℤ net_to_payee s.tax_split tx)
unfolding check_totals
check_totals-signs tx s h = ground arith

module _ (taxes : Dict TaxSplit) (tx : PaymentTransaction) (exact : HasExactTotals taxes tx) where
  deductions_nonneg : pos 0 ≤ℤ tax_sum taxes tx.items +ℤ discount_sum tx.items
  deductions_nonneg =
      rw (items_posted taxes tx.items) at
        (postings_sum_nonneg (item_postings taxes tx.items) exact.credits)

  gross_exact : gross_amount tx ≡ gross_sum tx.items
  gross_exact = gross_amount-wrap64 tx ∙ wrap64_exact _ exact.gross

  -- The receivers are credited exactly what the payer pays.
  credits_balance :
      pos 0 ≤ℤ gross_amount tx
      → net_to_payee taxes tx +ℤ postings_sum (item_postings taxes tx.items) ≡ gross_amount tx
  credits_balance positive =
      let g : ℤ = gross_sum tx.items in
      let t : ℤ = tax_sum taxes tx.items in
      let d : ℤ = discount_sum tx.items in
      let p : pos 0 ≤ℤ g = rw gross_exact at positive in
      rw
        (
          net_to_payee-wrap64 taxes tx,
          wrap64_exact (g -ℤ t -ℤ d) (
              IsInt64-of_bounds _ (omega (int_laws, p, exact.deductions.below))
                (omega (int_laws, deductions_nonneg, exact.gross.below))),
          items_posted taxes tx.items,
          gross_exact,
        )
        (omega int_laws)

abbrev Kept : State → State × Option Error → Type 0
Kept s r = IsSolvent r.0 × (supply r.0 ≡ supply s)

module _ (p : Primitives) (tx : PaymentTransaction) (s : State) (solvent : IsSolvent s) where
  -- The debit of the payer, then the credits.
  posted-Kept :
      HasExactTotals s.tax_split tx
      → IsValidated p tx s
      → Kept s (post_state (postings s.tax_split tx) s, none)
  posted-Kept exact valid =
      let (positive, net) = check_totals-signs tx s valid.totals in
      let covered : gross_amount tx ≤ℤ (account_at tx.payer.id s.accounts).balance =
        check_funds-covers tx s valid.funds in
      let high : (account_at tx.payer.id s.accounts).balance ≤ℤ supply s =
        rw (measure_at-account_at tx.payer.id s.accounts) at
          (measure_at-le-sum_by balance_of tx.payer.id s.accounts solvent.nonneg) in
      let balanced = credits_balance s.tax_split tx exact positive in
      let debit : Posting = (tx.payer.id, pos 0 -ℤ gross_amount tx) in
      let (n, e) =
        post_exact debit s.accounts solvent.nonneg (omega (int_laws, covered))
          (omega (int_laws, high, positive, solvent.bounded)) in
      let credits : List Posting =
        (tx.payee.id, net_to_payee s.tax_split tx) ∷ item_postings s.tax_split tx.items in
      let sum : postings_sum credits ≡ gross_amount tx = balanced in
      let (n', e') =
        credits_posted credits (post debit s.accounts) n (net, exact.credits)
          (rw (sum, e) (omega (int_laws, solvent.bounded))) in
      let total : supply (post_state (postings s.tax_split tx) s) ≡ supply s =
        e' ∙ rw (sum, e) (omega int_laws) in
      (record { nonneg = n'; bounded = rw total solvent.bounded }, total)

  Posts-Kept :
      HasExactTotals s.tax_split tx
      → (v : Result ⊤) (r : State × Option Error) → (v ≡ ok tt → IsValidated p tx s)
      → Posts tx s v r
      → Kept s r
  Posts-Kept exact (ok tt) r valid h = rw h (posted-Kept exact (valid refl))
  Posts-Kept exact (err e) r valid h = rw h (solvent, refl)

  -- For every payment on a solvent state (no balance negative, their sum an int64 value) whose
  -- int64 totals do not wrap and whose tax and discount amounts are not negative: whether
  -- ApplyTransaction succeeds or fails, the state after it is solvent and the sum of all balances is
  -- what it was.
  pub apply_transaction-supply :
      HasExactTotals s.tax_split tx
      → IsSolvent (apply_transaction p tx s).0 × (supply (apply_transaction p tx s).0 ≡ supply s)
  apply_transaction-supply exact =
      Posts-Kept exact (validate_transaction p tx s) (apply_transaction p tx s)
        (validate_transaction-IsValidated p tx s) (apply_transaction-Posts p tx s)

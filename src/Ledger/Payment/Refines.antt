-- ===== src/Ledger/Payment/Refines.antt =====
-- internal/ledger/state.go: ApplyTransaction and the postings of the payment.
use pixie_block.Base.{
  String, ⊤, List, [], ◌∷◌, ◌++◌, Option, none, some, ◌≡◌, refl, ap, inl, inr, Option-cases, arith,
}
use pixie_block.Base.Int.{ℤ, pos, ◌+ℤ◌, ◌-ℤ◌, int_laws}
use pixie_block.Base.Int64.{add64, sub64, wrap64}
use pixie_block.Base.Dict.{lookup}
use pixie_block.Base.Result.{ok, err}
use pixie_block.Errors.{Error, Result}
use pixie_block.Domain.{Discount, LineItem, PaymentTransaction, tax_amount}
use pixie_block.Crypto.{Primitives}
use pixie_block.Ledger.State.{State, add_balance, sub_balance, account_at}
use pixie_block.Ledger.Payment.{
  check_tax_codes, check_fields, check_items, check_totals, check_funds, check_signature,
  credit_taxes, credit_discounts, credit_items, transfer, validate_transaction, apply_transaction,
}
use pixie_block.Ledger.Payment.Postings.{
  code_postings, discount_postings, item_postings, postings, post, post_all, post_state,
  post_all-append,
}

credit_taxes-post_state :
    (checked : State) (amount : ℤ) (codes : List String) (s : State)
    → s.tax_split ≡ checked.tax_split
    → check_tax_codes checked codes ≡ ok tt
    → credit_taxes amount codes s ≡ (post_state (code_postings s.tax_split amount codes) s, none)
unfolding check_tax_codes credit_taxes add_balance post add64
credit_taxes-post_state checked amount [] s e h = refl
credit_taxes-post_state checked amount (code ∷ codes) s e h =
    elim (Option-cases (lookup code s.tax_split)) [
      | inl unknown ↦ ground (arith, ap (lookup code) e)
      | inr (split, known) ↦ ground (
        arith,
        ap (lookup code) e,
        credit_taxes-post_state checked amount codes
            (add_balance split.tax_account (tax_amount split amount) s) e,
      )
    ]

credit_discounts-post_state :
    (ds : List Discount) (s : State) → credit_discounts ds s ≡ post_state (discount_postings ds) s
unfolding credit_discounts add_balance post add64
credit_discounts-post_state [] s = refl
credit_discounts-post_state (d ∷ ds) s = ground (
  arith,
  credit_discounts-post_state ds s,
  credit_discounts-post_state ds (add_balance d.tax_account d.amount s),
)

credit_items-post_state :
    (checked : State) (items : List LineItem) (s : State)
    → s.tax_split ≡ checked.tax_split
    → check_items checked items ≡ ok tt
    → credit_items items s ≡ (post_state (item_postings s.tax_split items) s, none)
unfolding check_items credit_items
credit_items-post_state checked [] s e h = refl
credit_items-post_state checked (item ∷ items) s e h =
    let ts = code_postings s.tax_split item.amount item.tax_codes in
    let ds = discount_postings item.discounts in
    ground (
      arith,
      credit_taxes-post_state checked item.amount item.tax_codes s e,
      credit_discounts-post_state item.discounts (post_state ts s),
      credit_items-post_state checked items (post_state ds (post_state ts s)) e,
      post_all-append ts (ds ++ item_postings s.tax_split items) s.accounts,
      post_all-append ds (item_postings s.tax_split items) (post_all ts s.accounts),
    )

sub64-post : (a b : ℤ) → sub64 a b ≡ wrap64 (a +ℤ (pos 0 -ℤ b))
unfolding sub64
sub64-post a b = ap wrap64 (omega int_laws)

sub_balance-post_state :
    (id : String) (z : ℤ) (s : State) → sub_balance id z s ≡ post_state ((id, pos 0 -ℤ z) ∷ []) s
unfolding sub_balance post
sub_balance-post_state id z s = rw (sub64-post (account_at id s.accounts).balance z)

pub add_balance-post_state :
    (id : String) (z : ℤ) (s : State) → add_balance id z s ≡ post_state ((id, z) ∷ []) s
unfolding add_balance post add64
add_balance-post_state id z s = refl

-- After a validation the transfer posts the whole payment.
transfer-post_state :
    (tx : PaymentTransaction) (s : State)
    → check_items s tx.items ≡ ok tt
    → transfer tx s ≡ (post_state (postings s.tax_split tx) s, none)
unfolding transfer
transfer-post_state tx s h =
    rw (sub_balance-post_state, add_balance-post_state)
      (credit_items-post_state s tx.items _ refl h)

-- What a successful validation has checked.
pub record IsValidated (p : Primitives) (tx : PaymentTransaction) (s : State) : Type 0 where
  pub fields : check_fields tx ≡ ok tt
  pub items : check_items s tx.items ≡ ok tt
  pub totals : check_totals s tx ≡ ok tt
  pub funds : check_funds s tx ≡ ok tt
  pub signature : check_signature p s tx ≡ ok tt

pub validate_transaction-IsValidated :
    (p : Primitives) (tx : PaymentTransaction) (s : State)
    → validate_transaction p tx s ≡ ok tt
    → IsValidated p tx s
unfolding validate_transaction
validate_transaction-IsValidated p tx s h = ground arith

-- What a call does by how the validation ended: nothing on an error, the postings otherwise.
abbrev pub Posts : PaymentTransaction → State → Result ⊤ → State × Option Error → Type 0
Posts tx s (ok _) r = r ≡ (post_state (postings s.tax_split tx) s, none)
Posts tx s (err e) r = r ≡ (s, some e)

check_then-Posts :
    (tx : PaymentTransaction) (s : State) (r : Result ⊤)
    → (r ≡ ok tt → transfer tx s ≡ (post_state (postings s.tax_split tx) s, none))
    → Posts tx s r (elim r [ ok _ ↦ transfer tx s | err e ↦ (s, some e) ])
check_then-Posts tx s (ok tt) h = h refl
check_then-Posts tx s (err e) h = refl

-- For every payment and state: if ValidateTransaction returns an error, ApplyTransaction returns
-- that error and leaves the state as it was. Otherwise ApplyTransaction returns no error, and the
-- accounts are those after the postings of the payment, one after another; all else is unchanged.
pub apply_transaction-Posts :
    (p : Primitives) (tx : PaymentTransaction) (s : State)
    → Posts tx s (validate_transaction p tx s) (apply_transaction p tx s)
unfolding apply_transaction
apply_transaction-Posts p tx s =
    check_then-Posts tx s (validate_transaction p tx s)
      (λ h. transfer-post_state tx s (validate_transaction-IsValidated p tx s h).items)

-- ===== src/Ledger/Payment/Postings.antt =====
-- An independent description of what a payment does: a list of postings to accounts, over the
-- unbounded integers, posted one after another.
use pixie_block.Base.{String, List, [], ◌∷◌, ◌++◌, Option, none, some, ◌≡◌, refl, if◌then◌else◌}
use pixie_block.Base.Int.{ℤ, pos, ◌+ℤ◌, ◌-ℤ◌, eqb_ℤ}
use pixie_block.Base.Int64.{wrap64}
use pixie_block.Base.Dict.{Dict, lookup, insert}
use pixie_block.Domain.{
  Account, TaxSplit, Discount, LineItem, PaymentTransaction, tax_amount, gross_amount, net_to_payee,
}
use pixie_block.Ledger.State.{State, account_at}

abbrev pub Posting : Type 0
Posting = String × ℤ

-- The posting of one tax code; an unknown code has none.
abbrev pub code_posting : Option TaxSplit → ℤ → List Posting → List Posting
code_posting none amount rest = rest
code_posting (some split) amount rest = (split.tax_account, tax_amount split amount) ∷ rest

abbrev pub code_postings : Dict TaxSplit → ℤ → List String → List Posting
code_postings taxes amount [] = []
code_postings taxes amount (code ∷ codes) =
    code_posting (lookup code taxes) amount (code_postings taxes amount codes)

abbrev pub discount_postings : List Discount → List Posting
discount_postings [] = []
discount_postings (d ∷ ds) =
    if eqb_ℤ d.amount (pos 0)
    then discount_postings ds
    else (d.tax_account, d.amount) ∷ discount_postings ds

abbrev pub item_postings : Dict TaxSplit → List LineItem → List Posting
item_postings taxes [] = []
item_postings taxes (item ∷ items) =
    code_postings taxes item.amount item.tax_codes
    ++ (discount_postings item.discounts ++ item_postings taxes items)

-- The payer pays the gross amount, the payee receives the net amount, the tax accounts the rest.
abbrev pub postings : Dict TaxSplit → PaymentTransaction → List Posting
postings taxes tx =
    (tx.payer.id, pos 0 -ℤ gross_amount tx)
    ∷ (tx.payee.id, net_to_payee taxes tx)
    ∷ item_postings taxes tx.items

-- One posting changes the balance of its account only; a missing account is taken as empty.
unfoldable pub post : Posting → Dict Account → Dict Account
post (id, z) d =
    let a = account_at id d in insert id (record a { balance = wrap64 (a.balance +ℤ z) }) d

abbrev pub post_all : List Posting → Dict Account → Dict Account
post_all [] d = d
post_all (q ∷ qs) d = post_all qs (post q d)

abbrev pub post_state : List Posting → State → State
post_state qs s = record s { accounts = post_all qs s.accounts }

pub post_all-append :
    (ps qs : List Posting) (d : Dict Account) → post_all (ps ++ qs) d ≡ post_all qs (post_all ps d)
post_all-append [] qs d = refl
post_all-append (q ∷ ps) qs d = post_all-append ps qs (post q d)

abbrev pub postings_sum : List Posting → ℤ
postings_sum [] = pos 0
postings_sum ((id, z) ∷ qs) = z +ℤ postings_sum qs

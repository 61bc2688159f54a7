-- ===== src/Ledger/Accounts/Closing.antt =====
-- internal/ledger/state.go: ApplyAccountClose.
use pixie_block.Base.{
  String, Bool, true, false, ⊤, Option, none, some, ◌≡◌, ◌⊎◌, refl, ap, ◌∙◌, inl, inr, Option-cases,
  Bool-cases, ◌==◌, ◌&&◌, eq_refl, arith,
}
use pixie_block.Base.Int.{ℤ, pos, pos_part, neg_part, ◌+ℤ◌, ◌≤ℤ◌, ltb_ℤ, int_laws}
use pixie_block.Base.Int64.{add64}
use pixie_block.Base.Dict.{
  Dict, lookup, insert, erase, IsMap, insert-IsMap, sum_by, measure_at, sum_by-erase, AllNonneg,
  erase-AllNonneg, measure_at_nonneg, lookup-insert, lookup-erase, measure_at_two-le,
  measure_at-insert_ne,
}
use pixie_block.Base.Result.{ok, err}
use pixie_block.Errors.{Error, Result}
use pixie_block.Domain.{Account, AccountCloseTransaction, account_type_person}
use pixie_block.Crypto.{Primitives}
use pixie_block.Ledger.State.{State, account_at, add_balance}
use pixie_block.Ledger.Payment.Postings.{post}
use pixie_block.Ledger.Payment.Refines.{add_balance-post_state}
use pixie_block.Ledger.Payment.Supply.{balance_of, supply, measure_at-account_at}
use pixie_block.Ledger.Payment.Exact.{IsSolvent, post_exact}
use pixie_block.Ledger.Accounts.{
  is_open_type, resolve_close_destination, check_destination, check_close_account,
  validate_account_close, close_account, apply_account_close,
}

-- What a successful validation of a close has checked of the account.
pub record IsClosable (s : State) (tx : AccountCloseTransaction) (acct : Account) : Type 0 where
  pub found : lookup tx.account_id s.accounts ≡ some acct
  pub open_type : is_open_type acct.type ≡ true
  pub destination : check_destination s tx acct ≡ ok tt

pub validate_account_close-IsClosable :
    (p : Primitives) (tx : AccountCloseTransaction) (s : State)
    → validate_account_close p tx s ≡ ok tt
    → (acct : Account) × IsClosable s tx acct
unfolding validate_account_close check_close_account
validate_account_close-IsClosable p tx s h = elim (Option-cases (lookup tx.account_id s.accounts)) [
  | inl e ↦ absurd (ground arith)
  | inr (acct, e) ↦
      (acct, record { found = e; open_type = ground arith; destination = ground arith })
]

abbrev pays_out : Account → Bool
pays_out acct = acct.type == account_type_person && ltb_ℤ (pos 0) acct.balance

-- Either nothing is left on the account, or what is left goes to another account.
closing_cases :
    (s : State) (tx : AccountCloseTransaction) (acct : Account)
    → IsClosable s tx acct
    → pos 0 ≤ℤ acct.balance
    → ((pays_out acct ≡ false) × (acct.balance ≡ pos 0))
      ⊎ ((pays_out acct ≡ true) × ((resolve_close_destination tx == tx.account_id) ≡ false))
unfolding check_destination
closing_cases s tx acct c n = elim (Bool-cases (pays_out acct)) [
  | inl e ↦ inr (e, ground arith)
  | inr e ↦ inl (e, ground arith)
]

-- Erasing an account loses what is on it.
erased :
    (id : String) (d d' : Dict Account) (x : ℤ)
    → IsMap d'
    → AllNonneg balance_of d'
    → measure_at balance_of id d' ≡ x
    → sum_by balance_of d' ≡ sum_by balance_of d +ℤ x
    → AllNonneg balance_of (erase id d') × (sum_by balance_of (erase id d') ≡ sum_by balance_of d)
erased id d d' x m n e t = (
  erase-AllNonneg balance_of id d' n,
  omega (
    int_laws,
    ap pos_part (sum_by-erase balance_of id d' m),
    ap neg_part (sum_by-erase balance_of id d' m),
    ap pos_part e,
    ap neg_part e,
    ap pos_part t,
    ap neg_part t,
  ),
)

module _ (tx : AccountCloseTransaction) (s : State) (acct : Account) (c : IsClosable s tx acct)
    (m : IsMap s.accounts) (v : IsSolvent s) where
  held : measure_at balance_of tx.account_id s.accounts ≡ acct.balance
  held = rw (c.found, measure_at)

  account_found : account_at tx.account_id s.accounts ≡ acct
  account_found = rw (c.found, account_at)

  -- The destination can take what is left.
  paid_post :
      pos 0 ≤ℤ acct.balance
      → (resolve_close_destination tx == tx.account_id) ≡ false
      → let d' = post (resolve_close_destination tx, acct.balance) s.accounts in
        AllNonneg balance_of d'
        × (sum_by balance_of d' ≡ sum_by balance_of s.accounts +ℤ acct.balance)
  paid_post n ne =
      let dest = resolve_close_destination tx in
      let at_dest = measure_at-account_at dest s.accounts in
      let low = measure_at_nonneg balance_of dest s.accounts v.nonneg in
      let high = measure_at_two-le balance_of tx.account_id dest s.accounts m v.nonneg ne in
      post_exact (dest, acct.balance) s.accounts v.nonneg
        (omega (int_laws, n, low, ap pos_part at_dest, ap neg_part at_dest))
        (omega (
          int_laws,
          high,
          v.bounded,
          ap pos_part at_dest,
          ap neg_part at_dest,
          ap pos_part held,
          ap neg_part held,
        ))

  close_account-supply :
      AllNonneg balance_of (close_account tx s).accounts × (supply (close_account tx s) ≡ supply s)
  unfolding close_account post
  close_account-supply =
      let n : pos 0 ≤ℤ acct.balance =
        rw held at (measure_at_nonneg balance_of tx.account_id s.accounts v.nonneg) in
      rw account_found (elim (closing_cases s tx acct c n) [
        | inl (no_pay, zero) ↦ rw no_pay (
            erased tx.account_id s.accounts s.accounts (pos 0) m v.nonneg (held ∙ zero)
              (omega int_laws))
        | inr (pay, ne) ↦
            rw (pay, add_balance-post_state)
              (erased tx.account_id s.accounts
                (post (resolve_close_destination tx, acct.balance) s.accounts) acct.balance
                (insert-IsMap _ _ s.accounts m) (paid_post n ne).0
                (measure_at-insert_ne balance_of tx.account_id _ _ s.accounts ne ∙ held)
                (paid_post n ne).1)
      ])

-- The account and its key are gone, and no account but the destination has changed.
abbrev pub IsClosed : AccountCloseTransaction → State → State → Type 0
IsClosed tx s t =
    (lookup tx.account_id t.accounts ≡ none)
    × (lookup tx.account_id t.account_pub_keys ≡ none)
    × ((j : String)
        → (tx.account_id == j) ≡ false
        → (resolve_close_destination tx == j) ≡ false
        → lookup j t.accounts ≡ lookup j s.accounts)

close_account-IsClosed :
    (tx : AccountCloseTransaction) (s : State) → IsClosed tx s (close_account tx s)
unfolding close_account add_balance
close_account-IsClosed tx s =
    let id = tx.account_id in
    let acct = account_at id s.accounts in
    let dest = resolve_close_destination tx in
    let paid =
      insert dest
        (record (account_at dest s.accounts) {
          balance = add64 (account_at dest s.accounts).balance acct.balance;
        })
        s.accounts in
    (
      ground (arith, lookup-erase id id s.accounts, lookup-erase id id paid, eq_refl id),
      ground (arith, lookup-erase id id s.account_pub_keys, eq_refl id),
      λ j ne nd. ground (
        arith,
        lookup-erase j id s.accounts,
        lookup-erase j id paid,
        lookup-insert j dest
            (record (account_at dest s.accounts) {
              balance = add64 (account_at dest s.accounts).balance acct.balance;
            })
            s.accounts,
      ),
    )

-- What ApplyAccountClose does, by how the validation ended.
abbrev pub Closes : AccountCloseTransaction → State → State × Option Error → Result ⊤ → Type 0
Closes tx s r (err e) = r ≡ (s, some e)
Closes tx s r (ok _) = (r.1 ≡ none) × IsSolvent r.0 × (supply r.0 ≡ supply s) × IsClosed tx s r.0

close_then-Closes :
    (tx : AccountCloseTransaction) (s : State) (v : Result ⊤)
    → IsMap s.accounts
    → IsSolvent s
    → (v ≡ ok tt → (acct : Account) × IsClosable s tx acct)
    → Closes tx s (elim v [ ok _ ↦ (close_account tx s, none) | err e ↦ (s, some e) ]) v
close_then-Closes tx s (ok tt) m v closable =
    let (acct, c) = closable refl in
    let (n, e) = close_account-supply tx s acct c m v in
    (refl, record { nonneg = n; bounded = rw e v.bounded }, e, close_account-IsClosed tx s)
close_then-Closes tx s (err e) m v closable = refl

-- For every close and every solvent state (no balance negative, their sum an int64 value) whose
-- account map lists each id once: if ValidateAccountClose returns an error, ApplyAccountClose returns
-- it and leaves the state as it was. Otherwise it returns no error, the state is solvent, the sum of
-- all balances is what it was, the account and its key are gone, and no account but that one and the
-- destination has changed.
pub apply_account_close-Closes :
    (p : Primitives) (tx : AccountCloseTransaction) (s : State)
    → IsMap s.accounts
    → IsSolvent s
    → Closes tx s (apply_account_close p tx s) (validate_account_close p tx s)
unfolding apply_account_close
apply_account_close-Closes p tx s m v =
    close_then-Closes tx s (validate_account_close p tx s) m v
      (validate_account_close-IsClosable p tx s)

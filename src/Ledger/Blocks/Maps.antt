-- ===== src/Ledger/Blocks/Maps.antt =====
-- internal/ledger/state.go: what the transactions of a block do to the maps of the state.
use pixie_block.Base.{
  ⊤, List, [], ◌∷◌, Option, none, some, ◌≡◌, refl, ◌∙◌, Bool-cases, inl, inr, ◌&&◌, ◌==◌,
}
use pixie_block.Base.Int.{pos, ltb_ℤ}
use pixie_block.Base.Dict.{Dict, IsMap, insert-IsMap, erase-IsMap}
use pixie_block.Base.Result.{ok, err}
use pixie_block.Errors.{Error, Result}
use pixie_block.Domain.{
  Bytes, Account, PaymentTransaction, AccountCreateTransaction, AccountCloseTransaction,
  account_type_person,
}
use pixie_block.Crypto.{Primitives}
use pixie_block.Ledger.State.{State, account_at, add_balance}
use pixie_block.Ledger.State.Copy.{HasMaps}
use pixie_block.Ledger.Payment.{validate_transaction, apply_transaction}
use pixie_block.Ledger.Payment.Postings.{Posting, postings, post, post_all}
use pixie_block.Ledger.Payment.Refines.{Posts, apply_transaction-Posts}
use pixie_block.Ledger.Accounts.{
  validate_account_create, validate_account_close, open_account, close_account,
  apply_account_create, apply_account_close,
}
use pixie_block.Ledger.Accounts.Opening.{Branches, apply_account_create-Branches}

-- The second state has proper maps and the settings of the first.
pub record Follows (s t : State) : Type 0 where
  pub maps : HasMaps t
  pub taxes : t.tax_split ≡ s.tax_split
  pub allowed : t.allowed_tax_accts ≡ s.allowed_tax_accts
  pub validators : t.validator_pub_keys ≡ s.validator_pub_keys

pub Follows-self : (s : State) → HasMaps s → Follows s s
Follows-self s m = record { maps = m; taxes = refl; allowed = refl; validators = refl }

pub Follows-trans : (s t u : State) → Follows s t → Follows t u → Follows s u
Follows-trans s t u f g = record {
  maps = g.maps;
  taxes = g.taxes ∙ f.taxes;
  allowed = g.allowed ∙ f.allowed;
  validators = g.validators ∙ f.validators;
}

-- A state whose accounts and keys are replaced by other maps.
replaced :
    (s : State) (accounts : Dict Account) (keys : Dict Bytes)
    → HasMaps s
    → IsMap accounts
    → IsMap keys
    → Follows s (record s { accounts = accounts; account_pub_keys = keys })
replaced s accounts keys m a k = record {
  maps = record {
    accounts = a;
    tax_split = m.tax_split;
    allowed_tax_accts = m.allowed_tax_accts;
    validator_pub_keys = m.validator_pub_keys;
    account_pub_keys = k;
  };
  taxes = refl;
  allowed = refl;
  validators = refl;
}

post_all-IsMap : (qs : List Posting) (d : Dict Account) → IsMap d → IsMap (post_all qs d)
unfolding post
post_all-IsMap [] d m = m
post_all-IsMap ((id, z) ∷ qs) d m = post_all-IsMap qs _ (insert-IsMap id _ d m)

Posts-Follows :
    (tx : PaymentTransaction) (s : State) (v : Result ⊤) (r : State × Option Error)
    → HasMaps s
    → Posts tx s v r
    → Follows s r.0
Posts-Follows tx s (ok v) r m h = rw h (
    replaced s _ s.account_pub_keys m
      (post_all-IsMap (postings s.tax_split tx) s.accounts m.accounts) m.account_pub_keys)
Posts-Follows tx s (err e) r m h = rw h (Follows-self s m)

pub apply_transaction-Follows :
    (p : Primitives) (tx : PaymentTransaction) (s : State)
    → HasMaps s
    → Follows s (apply_transaction p tx s).0
apply_transaction-Follows p tx s m =
    Posts-Follows tx s (validate_transaction p tx s) _ m (apply_transaction-Posts p tx s)

open_account-Follows :
    (tx : AccountCreateTransaction) (key : Bytes) (s : State)
    → HasMaps s
    → Follows s (open_account tx key s)
unfolding open_account
open_account-Follows tx key s m =
    replaced s _ _ m (insert-IsMap _ _ _ m.accounts) (insert-IsMap _ _ _ m.account_pub_keys)

Branches-Follows :
    (p : Primitives) (tx : AccountCreateTransaction) (s : State) (v : Result ⊤)
    (r : State × Option Error)
    → HasMaps s
    → Branches p tx s r v
    → Follows s r.0
Branches-Follows p tx s (ok v) r m (key, parsed, absent, h) = rw h (open_account-Follows tx key s m)
Branches-Follows p tx s (err e) r m h = rw h (Follows-self s m)

pub apply_account_create-Follows :
    (p : Primitives) (tx : AccountCreateTransaction) (s : State)
    → HasMaps s
    → Follows s (apply_account_create p tx s).0
apply_account_create-Follows p tx s m =
    Branches-Follows p tx s (validate_account_create p tx s) _ m
      (apply_account_create-Branches p tx s)

close_account-Follows :
    (tx : AccountCloseTransaction) (s : State) → HasMaps s → Follows s (close_account tx s)
unfolding close_account add_balance
close_account-Follows tx s m =
    elim (Bool-cases (
      (account_at tx.account_id s.accounts).type == account_type_person
      && ltb_ℤ (pos 0) (account_at tx.account_id s.accounts).balance)) [
        | inl e ↦ rw e (
            replaced s _ _ m (erase-IsMap _ _ (insert-IsMap _ _ _ m.accounts))
              (erase-IsMap _ _ m.account_pub_keys))
        | inr e ↦
            rw e
              (replaced s _ _ m (erase-IsMap _ _ m.accounts) (erase-IsMap _ _ m.account_pub_keys))
      ]

close_then-Follows :
    (tx : AccountCloseTransaction) (s : State) (v : Result ⊤)
    → HasMaps s
    → let r : State × Option Error = elim v [
      | ok _ ↦ (close_account tx s, none)
      | err e ↦ (s, some e)
    ] in
      Follows s r.0
close_then-Follows tx s (ok v) m = close_account-Follows tx s m
close_then-Follows tx s (err e) m = Follows-self s m

pub apply_account_close-Follows :
    (p : Primitives) (tx : AccountCloseTransaction) (s : State)
    → HasMaps s
    → Follows s (apply_account_close p tx s).0
unfolding apply_account_close
apply_account_close-Follows p tx s m = close_then-Follows tx s (validate_account_close p tx s) m

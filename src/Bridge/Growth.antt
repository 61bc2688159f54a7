-- ===== src/Bridge/Growth.antt =====
-- internal/p2p/bridge.go: the chain of a bridge only grows.
use pixie_block.Base.{List, ◌++◌, ◌≡◌, ap, ◌∙◌}
use mathlib.Core.List.{append_assoc}
use pixie_block.Base.Int.{ℤ}
use pixie_block.Base.Result.{ok, err}
use pixie_block.Errors.{Result}
use pixie_block.Domain.{
  Block, PaymentTransaction, AccountCreateTransaction, AccountCloseTransaction,
}
use pixie_block.Crypto.{Primitives}
use pixie_block.Storage.{Backend}
use pixie_block.Chain.Suffixes.{append_block-Grows}
use pixie_block.Bridge.{
  on_new_transaction, on_new_account_create, on_new_account_close, Bridge, commit_block,
  select_executable,
}
use pixie_block.Bridge.CatchUps.{commit_block-append_block}

-- The chain of the second has the blocks of the first's, and maybe more behind them.
abbrev pub Grows : {DB : Type 0} → Bridge DB → Bridge DB → Type 0
Grows s t = (more : List Block) × (t.chain.blocks ≡ s.chain.blocks ++ more)

pub commit_block-Grows :
    {DB : Type 0} (p : Primitives) (back : Backend DB) (s : Bridge DB) (block : Block)
    (b : Bridge DB)
    → Grows s b
    → Grows s (commit_block p back block b).0
commit_block-Grows p back s block b (before, e) =
    let (more, f) = append_block-Grows p back block b.chain in
    (
      before ++ more,
      ap (λ c. c.blocks) (commit_block-append_block p back block b).1
          ∙ f
          ∙ ap (λ x. x ++ more) e
          ∙ append_assoc s.chain.blocks before more,
    )

pub select_executable-Grows :
    {DB : Type 0} (p : Primitives) (s : Bridge DB) (max : ℤ) (b : Bridge DB)
    → Grows s b
    → Grows s (select_executable p max b).1
unfolding select_executable
select_executable-Grows p s max b g = g

-- The handlers of requests leave the chain alone.
module _ {DB : Type 0} (p : Primitives) (s b : Bridge DB) (g : Grows s b) where
  pub on_new_transaction-Grows :
      (tx : Result PaymentTransaction) → Grows s (on_new_transaction p tx b).0
  unfolding on_new_transaction
  on_new_transaction-Grows (ok tx) = g
  on_new_transaction-Grows (err e) = g

  pub on_new_account_create-Grows :
      (tx : Result AccountCreateTransaction) → Grows s (on_new_account_create p tx b).0
  unfolding on_new_account_create
  on_new_account_create-Grows (ok tx) = g
  on_new_account_create-Grows (err e) = g

  pub on_new_account_close-Grows :
      (tx : Result AccountCloseTransaction) → Grows s (on_new_account_close p tx b).0
  unfolding on_new_account_close
  on_new_account_close-Grows (ok tx) = g
  on_new_account_close-Grows (err e) = g

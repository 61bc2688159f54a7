-- ===== src/Ledger/State/Copy.antt =====
-- internal/ledger/state.go: a state whose maps hold each key once, and its clone.
use pixie_block.Base.{◌≡◌, arith}
use pixie_block.Base.Dict.{IsMap, copy_into_empty}
use pixie_block.Ledger.State.{State, clone, new_state}

pub record HasMaps (s : State) : Type 0 where
  pub accounts : IsMap s.accounts
  pub tax_split : IsMap s.tax_split
  pub allowed_tax_accts : IsMap s.allowed_tax_accts
  pub validator_pub_keys : IsMap s.validator_pub_keys
  pub account_pub_keys : IsMap s.account_pub_keys

pub clone_lem : (s : State) → HasMaps s → clone s ≡ s
unfolding clone new_state
clone_lem s h = ground (
  arith,
  copy_into_empty s.accounts h.accounts,
  copy_into_empty s.tax_split h.tax_split,
  copy_into_empty s.allowed_tax_accts h.allowed_tax_accts,
  copy_into_empty s.validator_pub_keys h.validator_pub_keys,
  copy_into_empty s.account_pub_keys h.account_pub_keys,
)

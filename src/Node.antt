-- ===== src/Node.antt =====
-- internal/node/bootstrap.go: the state that a node starts with.
pub mod Bootstrap
use pixie_block.Base.{String, ⊤, List, [], ◌∷◌, Option, none, some}
use pixie_block.Base.Dict.{Dict}
use pixie_block.Base.Result.{ok, err, ◌>>=◌, ◌>>◌, wrap_err}
use pixie_block.Errors
use pixie_block.Errors.{Error, Result}
use pixie_block.Domain.{Bytes, Account, TaxSplit}
use pixie_block.Crypto.{Primitives, parse_public_key, parse_private_key}
use pixie_block.Config.{
  ValidatorConfig, AccountConfig, KeystoreEntry, Keystore, Taxes, Genesis, validate,
}
use pixie_block.Ledger.State.{
  State, new_state, set_account, add_validator, set_account_pub_key, Action, and_then,
}
use pixie_block.Ledger.Blocks.{result_of}

-- `domain.Account{ID: ..., Type: ..., Balance: ...}`
abbrev pub account_of : AccountConfig → Account
account_of a = record { id = a.id; type = a.type; balance = a.balance }

unfoldable pub set_accounts : List AccountConfig → State → State
unfolding set_account
set_accounts [] s = s
set_accounts (a ∷ as') s = set_accounts as' (set_account (account_of a) s)

module _ (p : Primitives) where
  -- `wrap` is what the caller makes of an error of a key.
  unfoldable pub add_validators : (String → Error → Error) → List ValidatorConfig → Action
  unfolding add_validator
  add_validators wrap [] s = (s, none)
  add_validators wrap (v ∷ vs) s = elim (parse_public_key p v.public_key) [
    | err e ↦ (s, some (wrap v.id e))
    | ok pub_key ↦ add_validators wrap vs (add_validator v.id pub_key s)
  ]

  unfoldable pub add_keys : (String → Error → Error) → List KeystoreEntry → Action
  unfolding set_account_pub_key
  add_keys wrap [] s = (s, none)
  add_keys wrap (entry ∷ entries) s = elim (parse_private_key p entry.private_key) [
    | err e ↦ (s, some (wrap entry.account_id e))
    | ok priv ↦
        add_keys wrap entries (set_account_pub_key entry.account_id (p.ed25519_public priv) s)
  ]

  unfoldable pub build_initial_state : Genesis → Keystore → Taxes → Result State
  unfolding set_accounts add_validators add_keys
  build_initial_state genesis keystore taxes = do
    wrap_err Errors.in_taxes (validate genesis.allowed_tax_accounts taxes)
    result_of (
        and_then (add_validators Errors.in_validator genesis.validators)
          (add_keys Errors.in_keystore keystore.entries)
          (set_accounts genesis.accounts (new_state genesis.allowed_tax_accounts taxes.tax_split)))

  abbrev plain : String → Error → Error
  plain id e = e

  -- Works on the state that it is given, which keeps the keys set before an error.
  unfoldable pub hydrate_state : Genesis → Keystore → Action
  unfolding add_validators add_keys
  hydrate_state genesis keystore =
      and_then (add_validators plain genesis.validators) (add_keys plain keystore.entries)

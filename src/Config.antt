-- ===== src/Config.antt =====
-- config/config.go: the genesis file, the keystore and the tax table. Reading a file and parsing its
-- JSON is an argument, the result of both.
pub mod Splits
pub mod Keystores
use pixie_block.Base.{
  ℕ, String, Bool, true, false, not, ◌||◌, ⊤, List, [], ◌∷◌, ◌++◌, Option, none, some, ◌==◌, length,
  nat_eq, bytes_eq, filter_by, if◌then◌else◌,
}
use pixie_block.Base.Int.{ℤ, pos, ltb_ℤ, leb_ℤ}
use pixie_block.Base.Dict.{Dict, contains}
use pixie_block.Base.Result.{ok, err, ◌>>=◌, ◌>>◌, guard}
use pixie_block.Errors
use pixie_block.Errors.{Error, Result}
use pixie_block.Domain.{Bytes, TaxSplit}
use pixie_block.Crypto.{Primitives, parse_private_key}
use pixie_block.Ledger.State.{allow_all}

pub record ValidatorConfig : Type 0 where
  pub id : String
  pub public_key : String

pub record AccountConfig : Type 0 where
  pub id : String
  pub type : String
  pub balance : ℤ

pub record KeystoreEntry : Type 0 where
  pub account_id : String
  pub private_key : String

pub record Keystore : Type 0 where
  pub entries : List KeystoreEntry

pub record Taxes : Type 0 where
  pub tax_split : Dict TaxSplit

pub record Genesis : Type 0 where
  pub chain_id : String
  pub genesis_time : ℕ
  pub block_time_seconds : ℤ
  pub max_txs_per_block : ℤ
  pub allowed_tax_accounts : List String
  pub validators : List ValidatorConfig
  pub accounts : List AccountConfig

-- `time.Unix(0, 0).UTC()`
abbrev pub unix_epoch : ℕ
unix_epoch = 62_135_596_800

-- The times that `IsZero` holds of are replaced.
abbrev pub time_or_epoch : ℕ → ℕ
time_or_epoch t = if nat_eq t 0 then unix_epoch else t

-- The defaults that LoadGenesis fills in.
unfoldable pub with_defaults : Genesis → Genesis
with_defaults g = record g {
  allowed_tax_accounts =
      if nat_eq (length g.allowed_tax_accounts) 0
      then "federal_treasury" ∷ []
      else g.allowed_tax_accounts;
  genesis_time = time_or_epoch g.genesis_time;
  max_txs_per_block = if leb_ℤ g.max_txs_per_block (pos 0) then pos 100 else g.max_txs_per_block;
}

unfoldable pub load_genesis : Result Genesis → Result Genesis
unfolding with_defaults
load_genesis parsed = do
  g ← parsed
  guard (not (g.chain_id == "")) Errors.chain_id_required
  ok (with_defaults g)

check_split : Dict ⊤ → String → TaxSplit → Result ⊤
check_split allowed code split = do
  guard (not (ltb_ℤ split.rate_bps (pos 0))) (Errors.negative_rate code)
  guard (not (split.tax_account == "")) (Errors.tax_account_required code)
  guard (contains split.tax_account allowed) (Errors.tax_account_not_in_genesis code)

check_splits : Dict ⊤ → Dict TaxSplit → Result ⊤
unfolding check_split
check_splits allowed [] = ok tt
check_splits allowed ((code, split) ∷ rest) = do
  check_split allowed code split
  check_splits allowed rest

unfoldable pub validate : List String → Taxes → Result ⊤
unfolding check_splits
validate allowed_tax_accounts t = do
  guard (not (nat_eq (length t.tax_split) 0)) Errors.no_tax_splits
  check_splits (allow_all [] allowed_tax_accounts) t.tax_split

unfoldable pub append_entry : KeystoreEntry → Keystore → Keystore
append_entry entry k = record { entries = k.entries ++ entry ∷ [] }

unfoldable pub remove_entry : String → Keystore → Keystore
remove_entry account_id k = record {
  entries = filter_by (λ e. not (e.account_id == account_id)) k.entries;
}

abbrev pub find_private_key : String → List KeystoreEntry → Option String
find_private_key account_id [] = none
find_private_key account_id (e ∷ es) =
    if e.account_id == account_id then some e.private_key else find_private_key account_id es

unfoldable pub private_key_for : String → Keystore → Option String
private_key_for account_id k = find_private_key account_id k.entries

module _ (p : Primitives) where
  abbrev pub has_public : Bytes → Result Bytes → Bool
  has_public want (err _) = false
  has_public want (ok key) = bytes_eq (p.ed25519_public key) want

  unfoldable pub find_account : Bytes → List KeystoreEntry → Option String
  find_account want [] = none
  find_account want (e ∷ es) =
      if has_public want (parse_private_key p e.private_key)
      then some e.account_id
      else find_account want es

  unfoldable pub account_id_for_private_key : String → Keystore → Option String
  unfolding find_account
  account_id_for_private_key key k = elim (parse_private_key p key) [
    | err _ ↦ none
    | ok want ↦ find_account (p.ed25519_public want) k.entries
  ]

  -- Two keys that both parse are compared by their public keys.
  unfoldable pub same_private_key : String → String → Bool
  same_private_key a b =
      if a == "" || b == "" then false else if a == b then true else elim (parse_private_key p a) [
        | err _ ↦ false
        | ok ka ↦ elim (parse_private_key p b) [
          | err _ ↦ false
          | ok kb ↦ bytes_eq (p.ed25519_public ka) (p.ed25519_public kb)
        ]
      ]

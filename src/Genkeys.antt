-- ===== src/Genkeys.antt =====
-- tools/genkeys.go: the accounts of a network, and the genesis, the keystore and the validator's key that
-- are written for them. `generate_key i` is the i-th call of ed25519.GenerateKey; reading, writing and
-- the JSON of the files are left out.
pub mod Acceptance
use Prim.Native.String.{[] as empty_text, ◌∷◌ as ◌∷ˢ◌}
use text.Mathlib.Text.{starts_with}
use pixie_block.Base.{
  ℕ, suc, String, Bool, true, false, not, ◌||◌, List, [], ◌∷◌, ◌++◌, ◌==◌, length, nat_eq,
  if◌then◌else◌,
}
use pixie_block.Base.Int.{pos}
use pixie_block.Base.Result.{ok, err, ◌>>=◌, ◌>>◌, guard, wrap_err}
use pixie_block.Errors
use pixie_block.Errors.{Error, Result}
use pixie_block.Domain.{Bytes, account_type_person, account_type_merchant, account_type_treasury}
use pixie_block.Crypto.{Primitives}
use pixie_block.Config.{AccountConfig, ValidatorConfig, KeystoreEntry, Keystore, Genesis}

-- `strings.HasSuffix(s, part)`
abbrev pub has_suffix : String → String → Bool
has_suffix part empty_text = part == ""
has_suffix part (c ∷ˢ s) = (c ∷ˢ s) == part || has_suffix part s

unfoldable pub infer_account_type : String → Result String
infer_account_type id =
    if starts_with id "person_"
    then ok account_type_person
    else if starts_with id "merchant_"
    then ok account_type_merchant
    else if id == "federal_treasury" || has_suffix "_treasury" id
    then ok account_type_treasury
    else err Errors.cannot_infer_type

abbrev pub check_type : AccountConfig → Result AccountConfig
check_type acct =
    if acct.type == account_type_person
      || acct.type == account_type_merchant
      || acct.type == account_type_treasury
    then ok acct
    else err (Errors.unknown_account_type acct.type)

abbrev pub with_type : AccountConfig → Result AccountConfig
unfolding infer_account_type
with_type acct =
    if acct.type == ""
    then infer_account_type acct.id >>= (λ inferred. ok (record acct { type = inferred }))
    else ok acct

unfoldable pub normalize_account : AccountConfig → Result AccountConfig
unfolding with_type
normalize_account acct = do
  guard (not (acct.id == "")) Errors.account_without_id
  typed ← with_type acct
  check_type typed

-- The loop of loadAccounts, from an index on.
unfoldable pub normalize_accounts : ℕ → List AccountConfig → Result (List AccountConfig)
unfolding normalize_account
normalize_accounts i [] = ok []
normalize_accounts i (acct ∷ accts) = do
  normalized ← wrap_err (Errors.in_account i acct.id) (normalize_account acct)
  rest ← normalize_accounts (suc i) accts
  ok (normalized ∷ rest)

-- `parsed` is what reading and parsing the file gives.
unfoldable pub load_accounts : Result (List AccountConfig) → Result (List AccountConfig)
unfolding normalize_accounts
load_accounts parsed = do
  accounts ← parsed
  guard (not (nat_eq (length accounts) 0)) Errors.accounts_file_empty
  normalize_accounts 0 accounts

abbrev pub is_tax_account : AccountConfig → Bool
is_tax_account acct = acct.type == account_type_treasury

abbrev pub needs_keystore_entry : AccountConfig → Bool
needs_keystore_entry acct = acct.type == account_type_person || acct.type == account_type_merchant

-- The three files that main writes.
pub record Generated : Type 0 where
  pub genesis : Genesis
  pub keystore : Keystore
  pub validator_id : String
  pub validator_key : String

-- `allowedTax`
abbrev pub tax_accounts : List AccountConfig → List String
tax_accounts [] = []
tax_accounts (acct ∷ accts) =
    let rest = tax_accounts accts in if is_tax_account acct then acct.id ∷ rest else rest

abbrev pub genesis_for : Primitives → ℕ → Bytes → List AccountConfig → Genesis
genesis_for p now validator_priv accounts = record {
  chain_id = "pixie-net-1";
  genesis_time = now;
  block_time_seconds = pos 5;
  max_txs_per_block = pos 1000;
  allowed_tax_accounts = tax_accounts accounts;
  validators =
      record { id = "validator-1"; public_key = p.base64_encode (p.ed25519_public validator_priv) }
      ∷ [];
  accounts = accounts;
}

module _ (p : Primitives) (generate_key : ℕ → Result Bytes) where
  -- An entry for each account, with the keys from the i-th on.
  unfoldable pub keystore_entries : ℕ → List AccountConfig → Result (List KeystoreEntry)
  keystore_entries i [] = ok []
  keystore_entries i (acct ∷ accts) = do
    priv ← generate_key i
    rest ← keystore_entries (suc i) accts
    ok (record { account_id = acct.id; private_key = p.base64_encode priv } ∷ rest)

  -- main, on the clock's time; the validator's key is the first.
  unfoldable pub generate : ℕ → List AccountConfig → Result Generated
  unfolding keystore_entries
  generate now accounts = do
    validator_priv ← generate_key 0
    entries ← keystore_entries 1 accounts
    ok (record {
      genesis = genesis_for p now validator_priv accounts;
      keystore = record { entries = entries };
      validator_id = "validator-1";
      validator_key = p.base64_encode validator_priv;
    })

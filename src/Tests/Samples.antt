-- ===== src/Tests/Samples.antt =====
-- Concrete inputs: primitives that a test can run, a state with four accounts, payments and blocks.
use pixie_block.Base.{◌==◌, ◌++◌, if◌then◌else◌, ℕ, String, [], ◌∷◌, some, bytes_eq}
use pixie_block.Base.Int.{ℤ, pos}
use pixie_block.Domain.{
  Bytes, Account, TaxSplit, Discount, LineItem, PaymentTransaction, AccountCreateTransaction,
  AccountCloseTransaction, Block,
}
use pixie_block.Crypto.{Primitives}
use pixie_block.Ledger.State.{State}

abbrev pub key32 : ℕ → Bytes
key32 k =
    k ∷ 0 ∷ 0 ∷ 0 ∷ 0 ∷ 0 ∷ 0 ∷ 0 ∷ 0 ∷ 0 ∷ 0 ∷ 0 ∷ 0 ∷ 0 ∷ 0 ∷ 0 ∷ 0 ∷ 0 ∷ 0 ∷ 0 ∷ 0 ∷ 0 ∷ 0 ∷ 0
    ∷ 0 ∷ 0 ∷ 0 ∷ 0 ∷ 0 ∷ 0 ∷ 0 ∷ 0 ∷ []

-- A signature is the key, every text decodes to one key, and a payload is encoded as one byte.
abbrev pub toy : Primitives
toy = record {
  format_time = λ t. "";
  json_marshal = λ payload. some (1 ∷ []);
  sha256 = λ bs. 7 ∷ bs;
  ed25519_sign = λ key message. key;
  ed25519_verify = λ key message signature. bytes_eq key signature;
  ed25519_public = λ key. key32 5;
  base64_decode = λ text. some (key32 5);
  base64_encode = λ bs. "key";
}

-- Private keys have another text than public ones, and are longer.
abbrev pub keys : Primitives
keys = record toy {
  base64_decode = λ text. if text == "secret" then some (key32 5 ++ key32 5) else some (key32 5);
}

abbrev pub account : String → String → ℤ → Account
account id type balance = record { id = id; type = type; balance = balance }

abbrev pub iss : TaxSplit
iss = record { rate_bps = pos 500; tax_account = "federal_treasury" }

abbrev pub ledger : State
ledger = record {
  accounts =
      ("federal_treasury", account "federal_treasury" "treasury" (pos 0))
      ∷ ("shop", account "shop" "merchant" (pos 10_000))
      ∷ ("ana", account "ana" "person" (pos 300))
      ∷ ("rui", account "rui" "merchant" (pos 0))
      ∷ [];
  tax_split = ("ISS", iss) ∷ [];
  allowed_tax_accts = ("federal_treasury", tt) ∷ [];
  validator_pub_keys = ("validator-1", key32 5) ∷ [];
  account_pub_keys = ("shop", key32 5) ∷ ("ana", key32 5) ∷ ("rui", key32 5) ∷ [];
}

abbrev pub credit : Discount
credit = record { code = "CREDIT"; amount = pos 16; tax_account = "federal_treasury" }

abbrev pub item : LineItem
item = record {
  description = "service";
  amount = pos 1000;
  tax_codes = "ISS" ∷ [];
  discounts = credit ∷ [];
}

-- 1000 gross, 50 of tax, 16 of discount, 934 net.
abbrev pub payment : PaymentTransaction
payment = record {
  id = "tx-1";
  timestamp = 0;
  payer = account "shop" "merchant" (pos 10_000);
  payee = account "rui" "merchant" (pos 0);
  items = item ∷ [];
  signature = key32 5;
}

abbrev pub create : AccountCreateTransaction
create = record {
  id = "c-1";
  timestamp = 0;
  account = account "bia" "person" (pos 0);
  public_key = "k";
  signature = key32 5;
}

abbrev pub close : AccountCloseTransaction
close = record {
  id = "d-1";
  timestamp = 0;
  account_id = "ana";
  public_key = "k";
  destination = "";
  signature = key32 5;
}

abbrev pub genesis_block : Block
genesis_block = record {
  height = pos 0;
  timestamp = 0;
  transactions = [];
  account_creates = [];
  account_closes = [];
  previous_hash = [];
  hash = 7 ∷ 1 ∷ [];
  validator = "validator-1";
  signature = [];
}

abbrev pub next_block : Block
next_block = record {
  height = pos 1;
  timestamp = 0;
  transactions = payment ∷ [];
  account_creates = create ∷ [];
  account_closes = close ∷ [];
  previous_hash = 7 ∷ 1 ∷ [];
  hash = 7 ∷ 1 ∷ [];
  validator = "validator-1";
  signature = key32 5;
}

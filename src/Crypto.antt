-- ===== src/Crypto.antt =====
-- internal/crypto: canonical bytes, signatures, hashes and keys. The primitives of Go's standard
-- library that work on the bytes (JSON encoding, SHA-256, Ed25519, base64, time formats) are the
-- fields of `Primitives`; the development is stated for all of them.
use pixie_block.Base.{
  ◌≡◌, refl, ℕ, String, Bool, List, [], ◌∷◌, Option, map, ◌/◌, ◌%◌, ◌+◌, ◌-◌, ltb, length, nat_eq,
  if◌then◌else◌,
}
use pixie_block.Base.Int.{ℤ}
use pixie_block.Base.Result.{ok, ◌>>=◌, ◌>>◌, guard, or_fail}
use pixie_block.Errors.{Result, decode_public_key, decode_private_key, marshal_failed}
use pixie_block.Errors.{invalid_public_key_size, invalid_private_key_size}
use pixie_block.Domain.{
  Bytes, Account, LineItem, PaymentTransaction, AccountCreateTransaction, AccountCloseTransaction,
  Block,
}

pub record UnsignedTransaction : Type 0 where
  pub id : String
  pub timestamp : String
  pub payer : Account
  pub payee : Account
  pub items : List LineItem

pub record UnsignedAccountCreate : Type 0 where
  pub id : String
  pub timestamp : String
  pub account : Account
  pub public_key : String

pub record UnsignedAccountClose : Type 0 where
  pub id : String
  pub timestamp : String
  pub account_id : String
  pub public_key : String
  pub destination : String

pub record UnsignedBlock : Type 0 where
  pub height : ℤ
  pub timestamp : String
  pub transactions : List UnsignedTransaction
  pub account_creates : List UnsignedAccountCreate
  pub account_closes : List UnsignedAccountClose
  pub previous_hash : Bytes
  pub validator : String

-- What `json.Marshal` is given here.
pub data Payload : Type 0 where
  transaction : UnsignedTransaction → Payload
  account_create : UnsignedAccountCreate → Payload
  account_close : UnsignedAccountClose → Payload
  block : UnsignedBlock → Payload

pub record Primitives : Type 0 where
  pub format_time : ℕ → String  -- Timestamp.UTC().Format("2006-01-02T15:04:05Z")
  pub json_marshal : Payload → Option Bytes
  pub sha256 : Bytes → Bytes
  pub ed25519_sign : Bytes → Bytes → Bytes
  pub ed25519_verify : Bytes → Bytes → Bytes → Bool
  pub ed25519_public : Bytes → Bytes  -- priv.Public()
  pub base64_decode : String → Option Bytes
  pub base64_encode : Bytes → String

abbrev pub public_key_size : ℕ
public_key_size = 32

abbrev pub private_key_size : ℕ
private_key_size = 64

-- The ASCII code of a digit, as "%x" prints it.
abbrev hex_digit : ℕ → ℕ
hex_digit n = if ltb n 10 then b'0' + n else b'a' + (n - 10)

-- `fmt.Sprintf("%x", bs)`
abbrev hex : Bytes → Bytes
hex [] = []
hex (b ∷ bs) = hex_digit (b / 16) ∷ hex_digit (b % 16) ∷ hex bs

module _ (p : Primitives) where
  unsigned_transaction : PaymentTransaction → UnsignedTransaction
  unsigned_transaction tx = record {
    id = tx.id;
    timestamp = p.format_time tx.timestamp;
    payer = tx.payer;
    payee = tx.payee;
    items = tx.items;
  }

  unsigned_create : AccountCreateTransaction → UnsignedAccountCreate
  unsigned_create tx = record {
    id = tx.id;
    timestamp = p.format_time tx.timestamp;
    account = tx.account;
    public_key = tx.public_key;
  }

  unsigned_close : AccountCloseTransaction → UnsignedAccountClose
  unsigned_close tx = record {
    id = tx.id;
    timestamp = p.format_time tx.timestamp;
    account_id = tx.account_id;
    public_key = tx.public_key;
    destination = tx.destination;
  }

  unsigned_block : Block → UnsignedBlock
  unfolding unsigned_transaction unsigned_create unsigned_close
  unsigned_block b = record {
    height = b.height;
    timestamp = p.format_time b.timestamp;
    transactions = map unsigned_transaction b.transactions;
    account_creates = map unsigned_create b.account_creates;
    account_closes = map unsigned_close b.account_closes;
    previous_hash = hex b.previous_hash;
    validator = b.validator;
  }

  unfoldable pub transaction_sign_bytes : PaymentTransaction → Result Bytes
  unfolding unsigned_transaction
  transaction_sign_bytes tx =
      or_fail (p.json_marshal (transaction (unsigned_transaction tx))) marshal_failed

  unfoldable pub account_create_sign_bytes : AccountCreateTransaction → Result Bytes
  unfolding unsigned_create
  account_create_sign_bytes tx =
      or_fail (p.json_marshal (account_create (unsigned_create tx))) marshal_failed

  unfoldable pub account_close_sign_bytes : AccountCloseTransaction → Result Bytes
  unfolding unsigned_close
  account_close_sign_bytes tx =
      or_fail (p.json_marshal (account_close (unsigned_close tx))) marshal_failed

  unfoldable pub block_sign_bytes : Block → Result Bytes
  unfolding unsigned_block
  block_sign_bytes b = or_fail (p.json_marshal (block (unsigned_block b))) marshal_failed

  unfoldable pub block_hash : Block → Result Bytes
  unfolding block_sign_bytes
  block_hash b = do sign_bytes ← block_sign_bytes b; ok (p.sha256 sign_bytes)

  unfoldable pub sign : Bytes → Bytes → Bytes
  sign private_key message = p.ed25519_sign private_key message

  unfoldable pub verify : Bytes → Bytes → Bytes → Bool
  verify public_key message signature = p.ed25519_verify public_key message signature

  unfoldable pub parse_public_key : String → Result Bytes
  parse_public_key b64 = do
    raw ← or_fail (p.base64_decode b64) decode_public_key
    guard (nat_eq (length raw) public_key_size) (invalid_public_key_size (length raw))
    ok raw

  unfoldable pub parse_private_key : String → Result Bytes
  parse_private_key b64 = do
    raw ← or_fail (p.base64_decode b64) decode_private_key
    guard (nat_eq (length raw) private_key_size) (invalid_private_key_size (length raw))
    ok raw

  -- The payload of a block leaves out its hash and its signature.
  pub block_sign_bytes-seal :
      (b : Block) (h s : Bytes)
      → block_sign_bytes (record b { hash = h; signature = s }) ≡ block_sign_bytes b
  unfolding block_sign_bytes unsigned_block
  block_sign_bytes-seal b h s = refl

  pub block_hash-seal :
      (b : Block) (h s : Bytes) → block_hash (record b { hash = h; signature = s }) ≡ block_hash b
  unfolding block_hash block_sign_bytes unsigned_block
  block_hash-seal b h s = refl

  -- The payload of a payment leaves out its signature.
  pub transaction_sign_bytes-sign :
      (tx : PaymentTransaction) (s : Bytes)
      → transaction_sign_bytes (record tx { signature = s }) ≡ transaction_sign_bytes tx
  unfolding transaction_sign_bytes unsigned_transaction
  transaction_sign_bytes-sign tx s = refl

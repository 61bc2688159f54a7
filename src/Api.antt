-- ===== src/Api.antt =====
-- internal/api/txview.go: who sees what of a transaction and of a block. `pub_key_b64` is the
-- server's accountPubKeyB64, which the functions take as an argument as in the source.
pub mod Privacy
pub mod Viewers
pub mod Submissions
pub mod Server
pub mod Accounts
pub mod Closings
pub mod Requests
pub mod Events
pub mod Templates
pub mod Rejections
pub mod Drafts
pub mod Closes
pub mod Creates
use Prim.Native.Char.{Char, char, code}
use Prim.Native.String.{[] as empty_text, ◌∷◌ as ◌∷ˢ◌, ◌++◌ as ◌++ˢ◌}
use pixie_block.Base.{
  ℕ, String, Bool, true, false, not, ◌&&◌, ◌||◌, List, [], ◌∷◌, Option, none, some, map, ◌==◌,
  nat_eq, if◌then◌else◌,
}
use pixie_block.Base.Int.{ℤ}
use pixie_block.Base.Result.{ok, err}
use pixie_block.Errors.{Result}
use pixie_block.Domain.{
  Bytes, LineItem, PaymentTransaction, AccountCreateTransaction, AccountCloseTransaction, Block,
}
use pixie_block.Crypto.{Primitives, parse_private_key}
use pixie_block.Config.{Keystore, private_key_for, account_id_for_private_key, same_private_key}
use pixie_block.Ledger.State.{State, account_pub_key}

pub record Viewer : Type 0 where
  pub account_id : String
  pub public_key : String
  pub audit : Bool

pub record PublicTx : Type 0 where
  pub id : String
  pub timestamp : ℕ
  pub payer : String
  pub payee : String
  pub items : List String
  pub signature : String

pub record PublicAccountCreate : Type 0 where
  pub timestamp : ℕ
  pub public_key : String
  pub signature : String

pub record PublicAccountClose : Type 0 where
  pub timestamp : ℕ
  pub public_key : String
  pub signature : String

-- The `any` that a Present function returns: the whole value or its public form.
pub data View (T P : Type 0) : Type 0 where
  full : T → View T P
  redacted : P → View T P

pub record PublicBlock : Type 0 where
  pub height : ℤ
  pub timestamp : ℕ
  pub transactions : List (View PaymentTransaction PublicTx)
  pub account_creates : List (View AccountCreateTransaction PublicAccountCreate)
  pub account_closes : List (View AccountCloseTransaction PublicAccountClose)
  pub previous_hash : Bytes
  pub hash : Bytes
  pub validator : String
  pub signature : Bytes

-- What of Go's library the views use besides `Primitives`.
pub record Encodings : Type 0 where
  pub text_bytes : String → Bytes  -- []byte(s), of "item:" and a description
  pub raw_url_encode : Bytes → String  -- base64.RawURLEncoding

abbrev space_to_plus : Char → Char
space_to_plus c = if nat_eq (code c) 32 then char 43 tt else c

-- `strings.ReplaceAll(pkey, " ", "+")`, which keeps an empty text.
unfoldable pub normalize_p_key : String → String
normalize_p_key empty_text = empty_text
normalize_p_key (c ∷ˢ s) = space_to_plus c ∷ˢ normalize_p_key s

-- May the viewer see all of the payment?
abbrev pub is_party : Viewer → PaymentTransaction → Bool
is_party viewer tx =
    viewer.audit || viewer.account_id == tx.payer.id || viewer.account_id == tx.payee.id

abbrev pub holds_key : Viewer → String → Bool
holds_key viewer key = not (viewer.public_key == "") && viewer.public_key == key

abbrev pub is_create_party : Viewer → AccountCreateTransaction → Bool
is_create_party viewer tx =
    viewer.audit || viewer.account_id == tx.account.id || holds_key viewer tx.public_key

abbrev pub is_close_party : Viewer → AccountCloseTransaction → Bool
is_close_party viewer tx =
    viewer.audit
    || viewer.account_id == tx.account_id
    || (not (tx.destination == "") && viewer.account_id == tx.destination)
    || holds_key viewer tx.public_key

module _ (p : Primitives) where
  -- `pubKeyB64`: the public key of a private key that parses, or an empty text.
  abbrev pub derived_key : Result Bytes → String
  derived_key (err _) = ""
  derived_key (ok priv) = p.base64_encode (p.ed25519_public priv)

  unfoldable pub resolve_viewer : Keystore → String → String → Viewer
  unfolding normalize_p_key
  resolve_viewer keystore validator_priv_b64 raw =
      let pkey = normalize_p_key raw in
      let key = derived_key (parse_private_key p pkey) in
      if pkey == ""
      then record { account_id = ""; public_key = ""; audit = false }
      else if same_private_key p pkey validator_priv_b64
      then record { account_id = ""; public_key = key; audit = true }
      else elim (account_id_for_private_key p pkey keystore) [
        | some id ↦ record { account_id = id; public_key = key; audit = false }
        | none ↦ record { account_id = ""; public_key = key; audit = false }
      ]

  -- On a copy of the chain's state.
  unfoldable pub account_pub_key_b64 : Keystore → State → String → String
  account_pub_key_b64 keystore s id = elim (account_pub_key id s) [
    | some pub_key ↦ p.base64_encode pub_key
    | none ↦ elim (private_key_for id keystore) [
      | none ↦ id
      | some priv_b64 ↦ elim (parse_private_key p priv_b64) [
        | ok priv ↦ p.base64_encode (p.ed25519_public priv)
        | err _ ↦ id
      ]
    ]
  ]

  module _ (enc : Encodings) where
    opaque_token_bytes : Bytes → String
    opaque_token_bytes b = enc.raw_url_encode (p.sha256 b)

    opaque_token : String → String
    opaque_token s = enc.raw_url_encode (p.sha256 (enc.text_bytes s))

    unfoldable pub present_tx :
        (String → String) → Viewer → PaymentTransaction → View PaymentTransaction PublicTx
    unfolding opaque_token opaque_token_bytes
    present_tx pub_key_b64 viewer tx =
        if is_party viewer tx
        then full tx
        else redacted (record {
          id = tx.id;
          timestamp = tx.timestamp;
          payer = pub_key_b64 tx.payer.id;
          payee = pub_key_b64 tx.payee.id;
          items = map (λ item. opaque_token ("item:" ++ˢ item.description)) tx.items;
          signature = opaque_token_bytes tx.signature;
        })

    unfoldable pub present_account_create :
        Viewer → AccountCreateTransaction → View AccountCreateTransaction PublicAccountCreate
    unfolding opaque_token_bytes
    present_account_create viewer tx =
        if is_create_party viewer tx
        then full tx
        else redacted (record {
          timestamp = tx.timestamp;
          public_key = tx.public_key;
          signature = opaque_token_bytes tx.signature;
        })

    unfoldable pub present_account_close :
        Viewer → AccountCloseTransaction → View AccountCloseTransaction PublicAccountClose
    unfolding opaque_token_bytes
    present_account_close viewer tx =
        if is_close_party viewer tx
        then full tx
        else redacted (record {
          timestamp = tx.timestamp;
          public_key = tx.public_key;
          signature = opaque_token_bytes tx.signature;
        })

    unfoldable pub present_block : (String → String) → Viewer → Block → PublicBlock
    unfolding present_tx present_account_create present_account_close
    present_block pub_key_b64 viewer block = record {
      height = block.height;
      timestamp = block.timestamp;
      transactions = map (present_tx pub_key_b64 viewer) block.transactions;
      account_creates = map (present_account_create viewer) block.account_creates;
      account_closes = map (present_account_close viewer) block.account_closes;
      previous_hash = block.previous_hash;
      hash = block.hash;
      validator = block.validator;
      signature = block.signature;
    }

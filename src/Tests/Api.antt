-- ===== src/Tests/Api.antt =====
-- The views of a block on concrete inputs.
use pixie_block.Base.{◌⊎◌, ◌==◌, ◌≡◌, refl, [], ◌∷◌, inl, inr, true, false}
use pixie_block.Base.Int.{pos}
use pixie_block.Domain.{PaymentTransaction, Block}
use pixie_block.Api.Submissions.{
  SubmitTxRequest, build_transaction, build_transaction-check_signature,
}
use pixie_block.Consensus.Proposals.{Signs}
use pixie_block.Ledger.State.{account_pub_key}
use pixie_block.Ledger.Payment.{check_signature}
use pixie_block.Base.{some, ◌++◌}
use pixie_block.Base.Result.{ok}
use pixie_block.Crypto.{Primitives, sign, verify, transaction_sign_bytes}
use pixie_block.Config.{private_key_for}
use pixie_block.Tests.Samples.{key32, ledger}
use pixie_block.Api.{Viewer, Encodings, present_block, resolve_viewer, normalize_p_key}
use pixie_block.Api.Privacy.{LooksLikeBlock, present_block-hides}
use pixie_block.Api.Viewers.{ArePaired, IsKeyOf, resolve_viewer-IsKeyOf}
use pixie_block.Config.{same_private_key, account_id_for_private_key}
use pixie_block.Crypto.{parse_private_key}
use pixie_block.Tests.Node.{keystore}
use pixie_block.Tests.Samples.{toy, keys, payment, item, next_block}

abbrev plain : Encodings
plain = record { text_bytes = λ s. []; raw_url_encode = λ b. "token" }

abbrev stranger : Viewer
stranger = record { account_id = "eve"; public_key = ""; audit = false }

-- The same payment with five times the amount and no discount.
abbrev larger : PaymentTransaction
larger = record payment { items = record item { amount = pos 5000; discounts = [] } ∷ [] }

abbrev other_block : Block
other_block = record next_block { transactions = larger ∷ [] }

blocks-LooksLikeBlock : LooksLikeBlock stranger next_block other_block
blocks-LooksLikeBlock = record {
  height = refl;
  timestamp = refl;
  transactions = (
    inr (
      record {
        id = refl;
        timestamp = refl;
        payer = refl;
        payee = refl;
        items = refl;
        signature = refl;
      },
      refl,
      refl,
    ),
    tt,
  );
  creates = (inl refl, tt);
  closes = (inl refl, tt);
  previous_hash = refl;
  hash = refl;
  validator = refl;
  signature = refl;
}

present_block-hides_example :
    present_block toy plain (λ id. id) stranger next_block
    ≡ present_block toy plain (λ id. id) stranger other_block
present_block-hides_example =
    present_block-hides toy plain (λ id. id) stranger next_block other_block blocks-LooksLikeBlock

resolve_viewer-IsKeyOf_example :
    let viewer = resolve_viewer keys keystore "validator" "secret" in
    let key = normalize_p_key "secret" in
    (viewer.audit ≡ true → (key ≡ "validator") ⊎ ArePaired keys key "validator")
    × ((viewer.account_id == "") ≡ false → IsKeyOf keys key keystore.entries viewer.account_id)
resolve_viewer-IsKeyOf_example = resolve_viewer-IsKeyOf keys keystore "validator" "secret"

-- The key is the shop's.
shop-viewer : (resolve_viewer keys keystore "" "secret").account_id ≡ "shop"
unfolding resolve_viewer normalize_p_key account_id_for_private_key same_private_key
    parse_private_key
shop-viewer = refl

-- Every key signs with the same bytes, under the same public key.
abbrev pair : Primitives
pair = record keys { ed25519_sign = λ key message. key32 5 }

pair-Signs : Signs pair (key32 5 ++ key32 5)
unfolding sign verify
pair-Signs = record { present = λ message. refl; verifies = λ message. refl }

abbrev request : SubmitTxRequest
request = record { payer = "shop"; payee = "rui"; items = item ∷ [] }

payment-built : build_transaction pair "tx-1" 0 keystore ledger request ≡ ok payment
unfolding build_transaction parse_private_key private_key_for transaction_sign_bytes sign
payment-built = refl

shop-key : private_key_for "shop" keystore ≡ some "secret"
unfolding private_key_for
shop-key = refl

shop-parsed : parse_private_key pair "secret" ≡ ok (key32 5 ++ key32 5)
unfolding parse_private_key
shop-parsed = refl

shop-known : account_pub_key "shop" ledger ≡ some (key32 5)
unfolding account_pub_key
shop-known = refl

build_transaction-check_signature_example : check_signature pair ledger payment ≡ ok tt
build_transaction-check_signature_example =
    build_transaction-check_signature pair "tx-1" 0 keystore ledger request "secret"
      (key32 5 ++ key32 5) payment shop-key shop-parsed pair-Signs shop-known payment-built

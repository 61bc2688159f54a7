-- ===== src/Consensus/Proposals.antt =====
-- internal/consensus/poa/producer.go: proposed blocks, turns and new producers.
use pixie_block.Base.{
  Bool, String, List, some, ◌≡◌, refl, arith, true, false, inl, inr, ℕ, Option-cases, eq_iff,
  bytes_eq_sound, bytes_eq_refl, length, nat_eq,
}
use pixie_block.Base.Int.{ℤ, pos}
use pixie_block.Base.Int64.{add64}
use pixie_block.Base.Dict.{lookup}
use pixie_block.Base.Result.{ok, err, guard, ◌>>◌, Result-cases, ◌>>=◌}
use pixie_block.Errors
use pixie_block.Errors.{Error, Result}
use pixie_block.Domain.{
  Bytes, Block, PaymentTransaction, AccountCreateTransaction, AccountCloseTransaction,
}
use pixie_block.Crypto.{
  Primitives, block_hash, block_sign_bytes, sign, verify, parse_public_key, parse_private_key,
  block_sign_bytes-seal, block_hash-seal,
}
use pixie_block.Config.{ValidatorConfig, Genesis}
use pixie_block.Ledger.State.{State, clone}
use pixie_block.Ledger.Blocks.{check_header, validate_block, apply_block, result_of}
use pixie_block.Consensus.{
  Producer, find_validator, can_produce, create_block, draft_block, seal, new_producer,
  validator_for_height,
}

-- What is relied on of Ed25519 with a private key: a signature is not empty, and it verifies under
-- the public key of the pair.
pub record Signs (p : Primitives) (private_key : Bytes) : Type 0 where
  pub present : (message : Bytes) → nat_eq (length (sign p private_key message)) 0 ≡ false
  pub verifies :
      (message : Bytes)
      → verify p (p.ed25519_public private_key) message (sign p private_key message) ≡ true

-- The block with the hash and the signature put in.
abbrev sealed : Primitives → Producer → Block → Bytes → Bytes → Block
sealed p producer b h bytes = record b { hash = h; signature = sign p producer.private_key bytes }

seal-eq :
    (p : Primitives) (producer : Producer) (draft b : Block)
    → seal p producer draft ≡ ok b
    → (h bytes : Bytes) × (block_hash p draft ≡ ok h)
      × (block_sign_bytes p draft ≡ ok bytes)
      × (b ≡ sealed p producer draft h bytes)
unfolding seal
seal-eq p producer draft b e = elim (Result-cases (block_hash p draft)) [
  | inr (x, f) ↦ absurd (ground arith)
  | inl (h, f) ↦ elim (Result-cases (block_sign_bytes p draft)) [
    | inr (x, g) ↦ absurd (ground (arith, block_sign_bytes-seal p draft h draft.signature))
    | inl (bytes, g) ↦
        (h, bytes, f, g, ground (arith, block_sign_bytes-seal p draft h draft.signature))
  ]
]

sealed-check_header :
    (p : Primitives) (producer : Producer) (draft prev : Block) (s : State) (h bytes : Bytes)
    → Signs p producer.private_key
    → lookup draft.validator s.validator_pub_keys ≡ some (p.ed25519_public producer.private_key)
    → draft.height ≡ add64 prev.height (pos 1)
    → draft.previous_hash ≡ prev.hash
    → block_hash p draft ≡ ok h
    → block_sign_bytes p draft ≡ ok bytes
    → check_header p (sealed p producer draft h bytes) prev s ≡ ok tt
unfolding check_header
sealed-check_header p producer draft prev s h bytes signs known height previous hashed signed =
    let sig = sign p producer.private_key bytes in
    ground (
      arith,
      block_hash-seal p draft h sig,
      block_sign_bytes-seal p draft h sig,
      signs.present bytes,
      signs.verifies bytes,
      bytes_eq_refl h,
      bytes_eq_refl prev.hash,
      known,
      height,
      previous,
      hashed,
      signed,
    )

-- The block and the parts that the caller gave.
pub record Proposes (producer : Producer) (now : ℕ) (height : ℤ) (prev : Block)
    (txs : List PaymentTransaction) (creates : List AccountCreateTransaction)
    (closes : List AccountCloseTransaction) (b : Block) : Type 0 where
  pub at_height : b.height ≡ height
  pub transactions : b.transactions ≡ txs
  pub account_creates : b.account_creates ≡ creates
  pub account_closes : b.account_closes ≡ closes
  pub validator : b.validator ≡ producer.validator.id

seal_if-eq :
    (p : Primitives) (mine : Result Bool) (e : Error) (producer : Producer) (draft b : Block)
    → (do m ← mine; guard m e; seal p producer draft) ≡ ok b
    → (mine ≡ ok true) × (seal p producer draft ≡ ok b)
seal_if-eq p (ok true) e producer draft b h = (refl, h)
seal_if-eq p (ok false) e producer draft b h = absurd (ground arith)
seal_if-eq p (err x) e producer draft b h = absurd (ground arith)

-- For every producer whose key signs and whose public key the state lists for its validator: if
-- CreateBlock proposes a block at the height after the predecessor's, it is the producer's turn, the
-- block carries the given transactions, creates and closes under the producer's name, and
-- ValidateBlock makes of it what applying these to a copy of the state yields: no check of the
-- header, the hash or the signature refuses it.
pub create_block-Proposes :
    (p : Primitives) (producer : Producer) (now : ℕ) (prev : Block) (txs : List PaymentTransaction)
    (creates : List AccountCreateTransaction) (closes : List AccountCloseTransaction) (s : State)
    (b : Block)
    → Signs p producer.private_key
    → lookup producer.validator.id s.validator_pub_keys
      ≡ some (p.ed25519_public producer.private_key)
    → create_block p producer now (add64 prev.height (pos 1)) prev txs creates closes ≡ ok b
    → (can_produce (add64 prev.height (pos 1)) producer ≡ ok true)
      × Proposes producer now (add64 prev.height (pos 1)) prev txs creates closes b
      × (validate_block p b prev s ≡ result_of (apply_block p b (clone s)))
unfolding create_block validate_block
create_block-Proposes p producer now prev txs creates closes s b signs known made =
    let height = add64 prev.height (pos 1) in
    let draft = draft_block producer now height prev txs creates closes in
    let (turn, sealing) =
      seal_if-eq p (can_produce height producer)
        (Errors.cannot_produce producer.validator.id height) producer draft b made in
    let (h, bytes, hashed, signed, e) = seal-eq p producer draft b sealing in
    let header : check_header p b prev s ≡ ok tt =
      rw e
        (sealed-check_header p producer draft prev s h bytes signs known refl refl hashed signed) in
    (
      turn,
      rw e (record {
        at_height = refl;
        transactions = refl;
        account_creates = refl;
        account_closes = refl;
        validator = refl;
      }),
      rw header,
    )

turn-id :
    (height : ℤ) (producer : Producer)
    → can_produce height producer ≡ ok true
    → (v : ValidatorConfig) × (validator_for_height height producer ≡ ok v)
      × (v.id ≡ producer.validator.id)
unfolding can_produce
turn-id height producer h = elim (Result-cases (validator_for_height height producer)) [
  | inr (x, f) ↦ absurd (ground arith)
  | inl (v, f) ↦ (v, f, ground (arith, eq_iff v.id producer.validator.id))
]

turn-genesis :
    (height : ℤ) (a b : Producer)
    → a.genesis ≡ b.genesis
    → validator_for_height height a ≡ validator_for_height height b
unfolding validator_for_height
turn-genesis height a b same = rw same

-- For every two producers of one genesis and every height: if CanProduce holds for both, they are
-- producers of the same validator.
pub can_produce_unique :
    (height : ℤ) (a b : Producer)
    → a.genesis ≡ b.genesis
    → can_produce height a ≡ ok true
    → can_produce height b ≡ ok true
    → a.validator.id ≡ b.validator.id
can_produce_unique height a b same ha hb =
    let (v, fa, ia) = turn-id height a ha in
    let (w, fb, ib) = turn-id height b hb in
    let agree = turn-genesis height a b same in ground arith

-- If NewProducer accepts a key, the producer stands in the genesis under the given id, and the
-- genesis lists the public key of the private key given.
pub new_producer-Holds :
    (p : Primitives) (genesis : Genesis) (id key : String) (producer : Producer)
    → new_producer p genesis id key ≡ ok producer
    → (find_validator id genesis.validators ≡ some producer.validator)
      × (producer.genesis ≡ genesis)
      × (parse_private_key p key ≡ ok producer.private_key)
      × (parse_public_key p producer.validator.public_key
          ≡ ok (p.ed25519_public producer.private_key))
unfolding new_producer
new_producer-Holds p genesis id key producer h =
    elim (Option-cases (find_validator id genesis.validators)) [
      | inl f ↦ absurd (ground arith)
      | inr (v, f) ↦ elim (Result-cases (parse_private_key p key)) [
        | inr (x, g) ↦ absurd (ground arith)
        | inl (priv, g) ↦ elim (Result-cases (parse_public_key p v.public_key)) [
          | inr (x, k) ↦ absurd (ground arith)
          | inl (expected, k) ↦ ground (arith, bytes_eq_sound (p.ed25519_public priv) expected)
        ]
      ]
    ]

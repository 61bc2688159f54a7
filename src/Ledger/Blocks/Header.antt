-- ===== src/Ledger/Blocks/Header.antt =====
-- internal/ledger/state.go: the header, the hash and the signature of a block under ValidateBlock.
use pixie_block.Base.{
  none, some, ◌≡◌, sym, ap, ◌∙◌, true, inl, inr, Option-cases, arith, bytes_eq_sound,
}
use pixie_block.Base.Int.{pos, eqb_ℤ→eq}
use pixie_block.Base.Int64.{add64}
use pixie_block.Base.Dict.{lookup}
use pixie_block.Base.Result.{ok, Result-cases}
use pixie_block.Domain.{Bytes, Block}
use pixie_block.Crypto.{Primitives, block_hash, block_sign_bytes, verify}
use pixie_block.Ledger.State.{State, clone}
use pixie_block.Ledger.Blocks.{check_header, apply_block, validate_block}

pub record IsLinked (p : Primitives) (block prev : Block) (s : State) : Type 0 where
  pub height : block.height ≡ add64 prev.height (pos 1)
  pub previous : block.previous_hash ≡ prev.hash
  pub hash : block_hash p block ≡ ok block.hash
  pub signed :
      (key sign_bytes : Bytes) × (lookup block.validator s.validator_pub_keys ≡ some key)
      × (block_sign_bytes p block ≡ ok sign_bytes)
      × (verify p key sign_bytes block.signature ≡ true)

check_header-IsLinked :
    (p : Primitives) (block prev : Block) (s : State)
    → check_header p block prev s ≡ ok tt
    → IsLinked p block prev s
unfolding check_header
check_header-IsLinked p block prev s h = elim (Result-cases (block_hash p block)) [
  | inr (x, e) ↦ absurd (ground arith)
  | inl (computed, e) ↦ elim (Option-cases (lookup block.validator s.validator_pub_keys)) [
    | inl u ↦ absurd (ground arith)
    | inr (key, k) ↦ elim (Result-cases (block_sign_bytes p block)) [
      | inr (x, f) ↦ absurd (ground arith)
      | inl (bytes, f) ↦ record {
        height = eqb_ℤ→eq _ _ (ground arith);
        previous = bytes_eq_sound _ _ (ground arith);
        hash = e ∙ ap ok (sym (bytes_eq_sound block.hash computed (ground arith)));
        signed = (key, bytes, k, f, ground arith);
      }
    ]
  ]
]

-- For every block, predecessor and state: if ValidateBlock accepts the block, its height is the
-- next one (as an int64), its previous hash is the predecessor's hash, its hash is the one computed
-- from it, and its signature verifies, on its canonical bytes, under the key of the validator that it
-- names; and the new state is what applying its transactions to a copy of the state yields, all of
-- them without an error.
pub validate_block-IsLinked :
    (p : Primitives) (block prev : Block) (s next : State)
    → validate_block p block prev s ≡ ok next
    → IsLinked p block prev s × (apply_block p block (clone s) ≡ (next, none))
unfolding validate_block
validate_block-IsLinked p block prev s next h =
    (check_header-IsLinked p block prev s (ground arith), ground arith)

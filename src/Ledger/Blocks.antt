-- ===== src/Ledger/Blocks.antt =====
-- internal/ledger/state.go: ValidateBlock.
pub mod Header
pub mod Maps
pub mod Supply
use pixie_block.Base.{
  String, not, ⊤, List, [], ◌∷◌, Option, none, some, length, nat_eq, bytes_eq, ◌&&◌,
}
use pixie_block.Base.Int.{ℤ, pos, eqb_ℤ}
use pixie_block.Base.Int64.{add64}
use pixie_block.Base.Dict.{lookup}
use pixie_block.Base.Result.{ok, err, ◌>>=◌, ◌>>◌, guard, or_fail, wrap_err}
use pixie_block.Errors
use pixie_block.Errors.{Error, Result}
use pixie_block.Domain.{
  PaymentTransaction, AccountCreateTransaction, AccountCloseTransaction, Block,
}
use pixie_block.Crypto.{Primitives, block_hash, block_sign_bytes, verify}
use pixie_block.Ledger.State.{State, clone, Action, and_then}
use pixie_block.Ledger.Payment.{apply_transaction}
use pixie_block.Ledger.Accounts.{apply_account_create, apply_account_close}

-- `for _, x := range xs { if err := apply(x, state); err != nil { return wrap(x, err) } }`
unfoldable pub apply_each : {T : Type 0} → (T → Action) → (T → Error → Error) → List T → Action
apply_each apply wrap [] s = (s, none)
apply_each apply wrap (x ∷ xs) s =
    let (t, e) = apply x s in
    elim e [ none ↦ apply_each apply wrap xs t | some failure ↦ (t, some (wrap x failure)) ]

-- `return nextState, nil`, or `return nil, err`.
abbrev pub result_of : State × Option Error → Result State
result_of (t, none) = ok t
result_of (t, some e) = err e

module _ (p : Primitives) where
  unfoldable pub check_header : Block → Block → State → Result ⊤
  check_header block prev s = do
    guard (eqb_ℤ block.height (add64 prev.height (pos 1)))
        (Errors.invalid_height (add64 prev.height (pos 1)) block.height)
    guard (bytes_eq block.previous_hash prev.hash) Errors.previous_hash_mismatch
    computed_hash ← block_hash p block
    guard (bytes_eq block.hash computed_hash) Errors.block_hash_mismatch
    pub_key ←
        or_fail (lookup block.validator s.validator_pub_keys)
          (Errors.unknown_validator block.validator)
    sign_bytes ← wrap_err Errors.canonical_bytes (block_sign_bytes p block)
    guard (not (nat_eq (length block.signature) 0) && verify p pub_key sign_bytes block.signature)
        Errors.invalid_block_signature

  unfoldable pub apply_creates : Block → Action
  apply_creates b =
      apply_each (apply_account_create p) (λ x. Errors.in_create x.id) b.account_creates

  unfoldable pub apply_payments : Block → Action
  apply_payments b =
      apply_each (apply_transaction p) (λ x. Errors.in_transaction x.id) b.transactions

  unfoldable pub apply_closes : Block → Action
  apply_closes b = apply_each (apply_account_close p) (λ x. Errors.in_close x.id) b.account_closes

  -- The creates, then the payments, then the closes, on the copy.
  unfoldable pub apply_block : Block → Action
  apply_block b = and_then (apply_creates b) (and_then (apply_payments b) (apply_closes b))

  unfoldable pub validate_block : Block → Block → State → Result State
  validate_block block prev s = do
    check_header block prev s
    result_of (apply_block block (clone s))

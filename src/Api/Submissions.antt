-- ===== src/Api/Submissions.antt =====
-- internal/api/transactions.go: the payment that the server builds and signs for a request. The id
-- and the time are arguments, in place of the random number and the clock.
use pixie_block.Base.{
  ℕ, String, Bool, true, List, [], ◌∷◌, some, ◌≡◌, subst, arith, ◌==◌, if◌then◌else◌, inl, inr,
}
use pixie_block.Base.Result.{ok, err, ◌>>=◌, ◌>>◌, guard, or_fail, Result-cases}
use pixie_block.Errors
use pixie_block.Errors.{Error, Result}
use pixie_block.Domain.{Bytes, LineItem, PaymentTransaction, account_type_person}
use pixie_block.Crypto.{
  Primitives, parse_private_key, transaction_sign_bytes, transaction_sign_bytes-sign, sign,
}
use pixie_block.Config.{Keystore, private_key_for}
use pixie_block.Ledger.State.{State, account_at, account_pub_key}
use pixie_block.Ledger.Payment.{check_signature}
use pixie_block.Consensus.Proposals.{Signs}

pub record SubmitTxRequest : Type 0 where
  pub payer : String
  pub payee : String
  pub items : List LineItem

check_codes : Bool → List String → Result Bool
check_codes is_person [] = ok true
check_codes is_person (code ∷ codes) =
    if is_person then err (Errors.tax_code_for_person code) else check_codes is_person codes

check_taxes : Bool → List LineItem → Result Bool
unfolding check_codes
check_taxes is_person [] = ok true
check_taxes is_person (item ∷ items) = do
  check_codes is_person item.tax_codes
  check_taxes is_person items

unfoldable pub validate_taxes : PaymentTransaction → Result Bool
unfolding check_taxes
validate_taxes tx = check_taxes (tx.payee.type == account_type_person) tx.items

-- `state` is the copy that the chain hands out.
abbrev pub unsigned_payment : String → ℕ → State → SubmitTxRequest → PaymentTransaction
unsigned_payment id now state req = record {
  id = id;
  timestamp = now;
  payer = account_at req.payer state.accounts;
  payee = account_at req.payee state.accounts;
  items = req.items;
  signature = [];
}

module _ (p : Primitives) where
  unfoldable pub build_transaction :
      String → ℕ → Keystore → State → SubmitTxRequest → Result PaymentTransaction
  unfolding validate_taxes
  build_transaction id now keystore state req =
      let tx = unsigned_payment id now state req in
      do
        tax_ok ← validate_taxes tx
        guard tax_ok Errors.tax_validation_failed
        priv_b64 ← or_fail (private_key_for req.payer keystore) (Errors.no_signing_key req.payer)
        priv ← parse_private_key p priv_b64
        sign_bytes ← transaction_sign_bytes p tx
        ok (record tx { signature = sign p priv sign_bytes })

  signed-check_signature :
      (state : State) (draft : PaymentTransaction) (priv bytes : Bytes)
      → Signs p priv
      → account_pub_key draft.payer.id state ≡ some (p.ed25519_public priv)
      → transaction_sign_bytes p draft ≡ ok bytes
      → check_signature p state (record draft { signature = sign p priv bytes }) ≡ ok tt
  unfolding check_signature
  signed-check_signature state draft priv bytes signs known w = ground (
    arith,
    transaction_sign_bytes-sign p draft (sign p priv bytes),
    signs.present bytes,
    signs.verifies bytes,
    known,
    w,
  )

  -- For every request and keystore, where the payer's private key signs and the state lists its public
  -- key for the payer: a payment that buildTransaction returns passes the signature check of
  -- ValidateTransaction on that state.
  pub build_transaction-check_signature :
      (id : String) (now : ℕ) (keystore : Keystore) (state : State) (req : SubmitTxRequest)
      (priv_b64 : String) (priv : Bytes) (tx : PaymentTransaction)
      → private_key_for req.payer keystore ≡ some priv_b64
      → parse_private_key p priv_b64 ≡ ok priv
      → Signs p priv
      → account_pub_key (account_at req.payer state.accounts).id state
        ≡ some (p.ed25519_public priv)
      → build_transaction id now keystore state req ≡ ok tx
      → check_signature p state tx ≡ ok tt
  unfolding build_transaction
  build_transaction-check_signature id now keystore state req priv_b64 priv tx found parsed signs
        known built =
      let draft = unsigned_payment id now state req in
      elim (Result-cases (validate_taxes draft)) [
        | inr (e, t) ↦ absurd (ground arith)
        | inl (allowed, t) ↦ elim (Result-cases (transaction_sign_bytes p draft)) [
          | inr (e, w) ↦ absurd (ground arith)
          | inl (bytes, w) ↦
              let signed : record draft { signature = sign p priv bytes } ≡ tx = ground arith in
              subst (λ x. check_signature p state x ≡ ok tt) signed
                (signed-check_signature state draft priv bytes signs known w)
        ]
      ]

-- ===== src/Api/Drafts.antt =====
-- internal/api/accounts.go: the close that handleCloseAccount makes, and who may have it made.
use pixie_block.Base.{
  ℕ, String, true, Option, none, some, ◌≡◌, ◌⊎◌, refl, subst, arith, Bool-cases, ◌==◌, inl, inr,
  eq_iff,
}
use pixie_block.Base.Dict.{lookup}
use pixie_block.Base.Result.{ok, or_fail, >>=-eq-ok}
use pixie_block.Errors
use pixie_block.Errors.{Error, Result}
use pixie_block.Domain.{
  Bytes, Account, AccountCloseTransaction, account_type_person, account_type_merchant,
}
use pixie_block.Crypto.{Primitives, account_close_sign_bytes, sign}
use pixie_block.Ledger.State.{account_pub_key}
use pixie_block.Chain.{state_copy, validate_close}
use pixie_block.Api.{resolve_viewer, normalize_p_key}
use pixie_block.Api.Server.{Server, with_status}
use pixie_block.Api.Accounts.{may_create}
use pixie_block.Api.Creates.{with_status-ok}
use pixie_block.Api.Closings.{CloseAccountRequest, close_key, draft_close, build_close}

-- Who may close an account: the validator a person's, the holder of a key of the account a merchant's.
abbrev pub MayClose :
    {DB : Type 0}
    → Primitives
    → Server DB
    → String
    → String
    → AccountCloseTransaction
    → Account
    → Type 0
MayClose p s pkey account_id tx acct =
    let viewer = resolve_viewer p s.keystore s.validator_priv_b64 (normalize_p_key pkey) in
    ((acct.type ≡ account_type_person) × (may_create p s ≡ true))
    ⊎ ((acct.type ≡ account_type_merchant)
        × ((viewer.account_id ≡ account_id) ⊎ (viewer.public_key ≡ tx.public_key)))

-- A close that the ledger accepts, of an account that the client may close.
pub record IsDrawn {DB : Type 0} (p : Primitives) (s : Server DB) (account_id pkey : String)
    (tx : AccountCloseTransaction) (acct : Account) : Type 0 where
  pub found : lookup account_id (state_copy s.chain).accounts ≡ some acct
  pub account : tx.account_id ≡ account_id
  pub valid : validate_close p tx s.chain ≡ ok tt
  pub allowed : MayClose p s pkey account_id tx acct

module _ {DB : Type 0} (p : Primitives) (s : Server DB) where
  close_key-MayClose :
      (pkey account_id : String) (tx : AccountCloseTransaction) (acct : Account)
      (destination : String) (priv : Bytes)
      → close_key p pkey tx.public_key destination acct account_id s ≡ ok priv
      → MayClose p s pkey account_id tx acct
  close_key-MayClose pkey account_id tx acct destination priv h =
      elim (Bool-cases (acct.type == account_type_person)) [
        | inl person ↦ elim (Bool-cases (may_create p s)) [
          | inl may ↦ inl ((eq_iff acct.type account_type_person).0 person, may)
          | inr not_may ↦ absurd (ground arith)
        ]
        | inr other ↦ elim (Bool-cases (acct.type == account_type_merchant)) [
          | inr neither ↦ absurd (ground arith)
          | inl merchant ↦
              let viewer =
                resolve_viewer p s.keystore s.validator_priv_b64 (normalize_p_key pkey) in
              elim (Bool-cases (normalize_p_key pkey == "")) [
                | inl none_given ↦ absurd (ground arith)
                | inr given ↦ elim (Bool-cases (viewer.account_id == account_id)) [
                  | inl own ↦ inr (
                    (eq_iff acct.type account_type_merchant).0 merchant,
                    inl ((eq_iff viewer.account_id account_id).0 own),
                  )
                  | inr not_own ↦ elim (Bool-cases (viewer.public_key == tx.public_key)) [
                    | inl same ↦ inr (
                      (eq_iff acct.type account_type_merchant).0 merchant,
                      inr ((eq_iff viewer.public_key tx.public_key).0 same),
                    )
                    | inr foreign ↦ absurd (ground arith)
                  ]
                ]
              ]
        ]
      ]

  or_fail-eq-ok : {A : Type 0} (o : Option A) (e : Error) (a : A) → or_fail o e ≡ ok a → o ≡ some a
  or_fail-eq-ok none e a h = absurd (ground arith)
  or_fail-eq-ok (some x) e a h = ground arith

  pub build_close-IsDrawn :
      (id : String) (now : ℕ) (account_id pkey : String) (body : Result CloseAccountRequest)
      (tx : AccountCloseTransaction) (acct : Account)
      → build_close p id now account_id pkey body s ≡ ok (tx, acct)
      → IsDrawn p s account_id pkey tx acct
  unfolding build_close
  build_close-IsDrawn id now account_id pkey body tx acct h =
      let state = state_copy s.chain in
      let looked = or_fail (lookup account_id state.accounts) Errors.no_such_account in
      let (a, found, h1) = >>=-eq-ok (with_status 404 looked) _ h in
      let (req, _, h2) = >>=-eq-ok (with_status 400 body) _ h1 in
      let (pub_key, _, h3) =
        >>=-eq-ok
          (with_status 400
            (or_fail (account_pub_key account_id state) Errors.no_account_public_key))
          _ h2 in
      let draft = draft_close p id now account_id pub_key req.destination in
      let (priv, key, h4) =
        >>=-eq-ok (close_key p pkey draft.public_key req.destination a account_id s) _ h3 in
      let (bytes, _, h5) = >>=-eq-ok (with_status 500 (account_close_sign_bytes p draft)) _ h4 in
      let signed = record draft { signature = sign p priv bytes } in
      let (_, valid, h6) = >>=-eq-ok (with_status 400 (validate_close p signed s.chain)) _ h5 in
      let pair : AccountCloseTransaction × Account = (signed, a) in
      let same : pair ≡ (tx, acct) = ground arith in
      subst (λ x. IsDrawn p s account_id pkey x.0 x.1) same
        (record {
          found =
              or_fail-eq-ok (lookup account_id state.accounts) Errors.no_such_account a
                (with_status-ok 404 looked a found);
          account = refl;
          valid = with_status-ok 400 (validate_close p signed s.chain) tt valid;
          allowed = close_key-MayClose pkey account_id signed a req.destination priv key;
        })

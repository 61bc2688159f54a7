-- ===== src/Api/Closings.antt =====
-- internal/api/accounts.go: the handler that closes an account. The id of the request and its time are
-- arguments; a body that is missing or empty comes as a request without a destination.
use pixie_block.Base.{ℕ, String, not, ◌||◌, [], none, some, ◌==◌, if◌then◌else◌}
use pixie_block.Base.Int.{pos}
use pixie_block.Base.Dict.{lookup}
use pixie_block.Base.Result.{ok, err, ◌>>=◌, ◌>>◌, guard, or_fail}
use pixie_block.Errors
use pixie_block.Errors.{Error, Result}
use pixie_block.Domain.{
  Bytes, Account, AccountCloseTransaction, account_type_person, account_type_merchant,
}
use pixie_block.Crypto.{Primitives, parse_private_key, sign, account_close_sign_bytes}
use pixie_block.Ledger.State.{account_pub_key}
use pixie_block.Ledger.Accounts.{resolve_close_destination}
use pixie_block.Mempool.AccountCloses.{try_add_close}
use pixie_block.Chain.{state_copy, validate_close}
use pixie_block.Api.{resolve_viewer, normalize_p_key}
use pixie_block.Api.Server.{
  Server, Surroundings, Response, Checked, with_status, write_json, write_error, remove_keystore,
  closed,
}
use pixie_block.Api.Accounts.{validator_signing_key, may_create}

pub record CloseAccountRequest : Type 0 where
  pub destination : String

-- The close before it is signed.
abbrev pub draft_close : Primitives → String → ℕ → String → Bytes → String → AccountCloseTransaction
draft_close p id now account_id pub_key destination = record {
  id = id;
  timestamp = now;
  account_id = account_id;
  public_key = p.base64_encode pub_key;
  destination = destination;
  signature = [];
}

abbrev pub closed_response : AccountCloseTransaction → Account → Response
closed_response tx acct =
    let is_person = acct.type == account_type_person in
    write_json 200 (
      closed (record {
        tx_id = tx.id;
        account_id = tx.account_id;
        destination = if is_person then resolve_close_destination tx else "";
        transferred = if is_person then acct.balance else pos 0;
      }))

module _ {DB : Type 0} (p : Primitives) where
  abbrev pub person_key : Server DB → Checked Bytes
  person_key s = do
    guard (may_create p s) (403, Errors.person_close_needs_validator)
    validator_signing_key p s

  -- `pkey` is what the header X-Private-Key holds or, where that is empty, the query value `pkey`.
  abbrev pub merchant_key : String → String → String → String → Server DB → Checked Bytes
  merchant_key pkey account_id public_key destination s =
      let key = normalize_p_key pkey in
      let viewer = resolve_viewer p s.keystore s.validator_priv_b64 key in
      do
        guard (not (key == "")) (403, Errors.merchant_close_needs_key)
        guard (viewer.account_id == account_id || viewer.public_key == public_key)
            (403, Errors.merchant_key_mismatch)
        guard (destination == "") (400, Errors.merchant_close_destination)
        elim (parse_private_key p key) [
          | ok priv ↦ ok priv
          | err _ ↦ err (403, Errors.close_bad_private_key)
        ]

  -- The key that signs, by the type of the account.
  abbrev pub close_key : String → String → String → Account → String → Server DB → Checked Bytes
  close_key pkey public_key destination acct account_id s =
      if acct.type == account_type_person
      then person_key s
      else if acct.type == account_type_merchant
      then merchant_key pkey account_id public_key destination s
      else err (400, Errors.close_bad_type)

  -- The close up to its validation, with the account as it was.
  unfoldable pub build_close :
      String
      → ℕ
      → String
      → String
      → Result CloseAccountRequest
      → Server DB
      → Checked (AccountCloseTransaction × Account)
  build_close id now account_id pkey body s =
      let state = state_copy s.chain in
      do
        acct ← with_status 404 (or_fail (lookup account_id state.accounts) Errors.no_such_account)
        req ← with_status 400 body
        pub_key ←
            with_status 400
              (or_fail (account_pub_key account_id state) Errors.no_account_public_key)
        let draft = draft_close p id now account_id pub_key req.destination
        priv ← close_key pkey draft.public_key req.destination acct account_id s
        sign_bytes ← with_status 500 (account_close_sign_bytes p draft)
        let tx = record draft { signature = sign p priv sign_bytes }
        with_status 400 (validate_close p tx s.chain)
        ok (tx, acct)

  module _ {W : Type 0} (out : Surroundings W) where
    abbrev pub finish_close :
        AccountCloseTransaction → Account → Server DB → W → (Server DB × W) × Response
    finish_close tx acct s w =
        let (sent, e) = out.submit_account_close tx w in
        elim e [
          | some x ↦ ((s, sent), write_error 500 x)
          | none ↦
              let (stored, failure) = remove_keystore out tx.account_id s sent in
              elim failure [
                | some x ↦ (stored, write_error 500 (Errors.persist_keystore x))
                | none ↦ (stored, closed_response tx acct)
              ]
        ]

    unfoldable pub handle_close_account :
        String
        → ℕ
        → String
        → String
        → Result CloseAccountRequest
        → Server DB
        → W
        → (Server DB × W) × Response
    unfolding build_close
    handle_close_account id now account_id pkey body s w =
        elim (build_close id now account_id pkey body s) [
          | err (status, e) ↦ ((s, w), write_error status e)
          | ok (tx, acct) ↦
              let (pool, e) = try_add_close tx none s.close_pool in
              elim e [
                | some x ↦ ((s, w), write_error 400 x)
                | none ↦ finish_close tx acct (record s { close_pool = pool }) w
              ]
        ]

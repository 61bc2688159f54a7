-- ===== src/Api/Accounts.antt =====
-- internal/api/accounts.go: the handlers of accounts. The id of a request, its time and the generated
-- key pair are arguments, and so is the path below `/v1/accounts/`, split at its slashes.
use text.Mathlib.Text.{is_lt}
use Prim.Native.String.{compare}
use pixie_block.Base.{
  ℕ, String, Bool, not, ◌&&◌, List, [], ◌∷◌, none, some, map, ◌==◌, if◌then◌else◌,
}
use pixie_block.Base.Int.{pos}
use pixie_block.Base.Dict.{Dict, lookup}
use pixie_block.Base.Result.{ok, err, ◌>>=◌, ◌>>◌, guard, wrap_err}
use pixie_block.Errors
use pixie_block.Errors.{Error, Result}
use pixie_block.Domain.{Bytes, Account, AccountCreateTransaction}
use pixie_block.Crypto.{Primitives, parse_private_key, sign, account_create_sign_bytes}
use pixie_block.Mempool.AccountCreates.{try_add_create}
use pixie_block.Chain.{state_copy, validate_create}
use pixie_block.Api.Server.{
  Server, Surroundings, Response, Checked, with_status, write_json, write_error, append_keystore,
  account, created,
}

pub record CreateAccountRequest : Type 0 where
  pub id : String
  pub type : String

-- `sort.Slice` by id, on the values of the map.
abbrev pub insert_account : Account → List Account → List Account
insert_account a [] = a ∷ []
insert_account a (b ∷ bs) =
    if is_lt (compare b.id a.id) then b ∷ insert_account a bs else a ∷ b ∷ bs

abbrev pub sort_accounts : List Account → List Account
sort_accounts [] = []
sort_accounts (a ∷ as') = insert_account a (sort_accounts as')

abbrev pub values : Dict Account → List Account
values d = map (λ e. e.1) d

abbrev pub draft_create :
    Primitives → String → ℕ → CreateAccountRequest → Bytes → AccountCreateTransaction
draft_create p id now req priv = record {
  id = id;
  timestamp = now;
  account = record { id = req.id; type = req.type; balance = pos 0 };
  public_key = p.base64_encode (p.ed25519_public priv);
  signature = [];
}

abbrev pub created_response : Primitives → AccountCreateTransaction → Bytes → Response
created_response p tx priv = write_json 201 (
    created (record {
      account = tx.account;
      public_key = tx.public_key;
      private_key = p.base64_encode priv;
      tx_id = tx.id;
    }))

module _ {DB : Type 0} (p : Primitives) where
  unfoldable pub list_accounts : Server DB → List Account
  list_accounts s = sort_accounts (values (state_copy s.chain).accounts)

  -- The key with which the node signs for accounts.
  abbrev pub validator_signing_key : Server DB → Checked Bytes
  validator_signing_key s =
      with_status 500 (wrap_err Errors.validator_key (parse_private_key p s.validator_priv_b64))

  abbrev pub may_create : Server DB → Bool
  may_create s = s.can_create_accounts && not (s.validator_priv_b64 == "")

  -- The create up to its validation, with the new private key.
  unfoldable pub build_create :
      String
      → ℕ
      → Result CreateAccountRequest
      → Result Bytes
      → Server DB
      → Checked (AccountCreateTransaction × Bytes)
  build_create id now body generated s = do
    guard (may_create s) (403, Errors.create_needs_validator)
    req ← with_status 400 body
    guard (not (req.id == "")) (400, Errors.api_id_required)
    priv ← with_status 500 (wrap_err Errors.generate_keypair generated)
    let draft = draft_create p id now req priv
    validator_priv ← validator_signing_key s
    sign_bytes ← with_status 500 (account_create_sign_bytes p draft)
    let tx = record draft { signature = sign p validator_priv sign_bytes }
    with_status 400 (validate_create p tx s.chain)
    ok (tx, priv)

  module _ {W : Type 0} (out : Surroundings W) where
    -- What follows once the create is in the pool.
    abbrev pub finish_create :
        AccountCreateTransaction → Bytes → Server DB → W → (Server DB × W) × Response
    finish_create tx priv s w =
        let (sent, e) = out.submit_account_create tx w in
        elim e [
          | some x ↦ ((s, sent), write_error 500 x)
          | none ↦
              let (stored, failure) =
                append_keystore out tx.account.id (p.base64_encode priv) s sent in
              elim failure [
                | some x ↦ (stored, write_error 500 (Errors.persist_keystore x))
                | none ↦ (stored, created_response p tx priv)
              ]
        ]

    unfoldable pub handle_create_account :
        String
        → ℕ
        → Result CreateAccountRequest
        → Result Bytes
        → Server DB
        → W
        → (Server DB × W) × Response
    unfolding build_create
    handle_create_account id now body generated s w = elim (build_create id now body generated s) [
      | err (status, e) ↦ ((s, w), write_error status e)
      | ok (tx, priv) ↦
          let (pool, e) = try_add_create tx none s.create_pool in
          elim e [
            | some x ↦ ((s, w), write_error 400 x)
            | none ↦ finish_create tx priv (record s { create_pool = pool }) w
          ]
    ]

  -- `GET /v1/accounts/{id}/balance`
  unfoldable pub handle_balance : List String → Server DB → Response
  handle_balance (id ∷ part ∷ parts) s =
      if not (part == "balance")
      then write_error 400 Errors.bad_path
      else elim (lookup id (state_copy s.chain).accounts) [
        | none ↦ write_error 404 Errors.no_such_account
        | some acct ↦ write_json 200 (account acct)
      ]
  handle_balance _ s = write_error 400 Errors.bad_path

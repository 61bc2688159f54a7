-- ===== src/Tests/Server.antt =====
-- The server's handlers on concrete inputs.
use pixie_block.Base.{ℕ, ◌+◌, ◌≡◌, refl, ◌++◌, none, true, arith}
use pixie_block.Base.Int.{pos}
use pixie_block.Base.Result.{ok}
use pixie_block.Domain.{Bytes, Account, AccountCreateTransaction, AccountCloseTransaction}
use pixie_block.Crypto.{
  Primitives, sign, verify, parse_private_key, parse_public_key, account_create_sign_bytes,
  account_close_sign_bytes,
}
use pixie_block.Ledger.State.{clone, account_pub_key}
use pixie_block.Ledger.Accounts.{
  validate_account_create, check_create_fields, check_create_signature, verify_any_validator,
  validate_account_close, check_close_account, check_close_key, check_destination,
  check_close_signature, resolve_close_destination,
}
use pixie_block.Mempool.Pool.{new}
use pixie_block.Mempool.Requests.{new_requests, try_add_request}
use pixie_block.Chain.{state_copy, validate_create, validate_close}
use pixie_block.Api.Server.{
  Server, Surroundings, CreateAccountResponse, CloseAccountResponse, created, closed,
  append_keystore, remove_keystore,
}
use pixie_block.Api.Accounts.{
  CreateAccountRequest, handle_create_account, build_create, created_response,
}
use pixie_block.Api.Rejections.{IsClientError, Submission, create_account, handle, handle-Rejects}
use pixie_block.Api.Closings.{
  CloseAccountRequest, build_close, handle_close_account, closed_response,
}
use pixie_block.Api.Drafts.{IsDrawn}
use pixie_block.Api.Closes.{HoldsClose, Tells, handle_close_account-Holds}
use pixie_block.Api.Creates.{IsBuilt, Holds, handle_create_account-Holds}
use pixie_block.Tests.Samples.{keys, key32}
use pixie_block.Tests.Backend.{Files}
use pixie_block.Tests.Chain.{chain}
use pixie_block.Tests.Node.{keystore}
use pixie_block.Mempool.Requests.Invariant.{new_requests-IsRequestPool}

-- A signature is the first half of the private key.
abbrev signing : Primitives
signing = record keys { ed25519_sign = λ key message. key32 5 }

abbrev server : Server Files
server = record {
  chain = chain;
  mempool = new;
  create_pool = new_requests;
  close_pool = new_requests;
  keystore = keystore;
  keystore_path = "keystore.json";
  validator_priv_b64 = "secret";
  can_create_accounts = true;
}

-- What is sent or saved is counted.
abbrev counted : Surroundings ℕ
counted = record {
  submit_transaction = λ tx n. (n + 1, none);
  submit_account_create = λ tx n. (n + 1, none);
  submit_account_close = λ tx n. (n + 1, none);
  save_keystore = λ path k n. (n + 1, none);
}

abbrev request : CreateAccountRequest
request = record { id = "bia"; type = "person" }

abbrev answer : CreateAccountResponse
answer = record {
  account = record { id = "bia"; type = "person"; balance = pos 0 };
  public_key = "key";
  private_key = "key";
  tx_id = "c-1";
}

answered :
    (handle_create_account signing counted "c-1" 0
      (ok request)
      (ok (key32 5 ++ key32 5))
      server
      0).1.payload
    ≡ created answer
unfolding handle_create_account build_create append_keystore validate_create clone
    validate_account_create check_create_fields check_create_signature verify_any_validator sign
    verify parse_private_key parse_public_key account_create_sign_bytes try_add_request new_requests
answered = refl

handle_create_account-Holds_example :
    (tx : AccountCreateTransaction) × (priv : Bytes) × IsBuilt signing server
      (ok (key32 5 ++ key32 5))
      tx
      priv
    × Holds signing counted server 0
        (handle_create_account signing counted "c-1" 0
          (ok request)
          (ok (key32 5 ++ key32 5))
          server
          0).0.0
        tx
        priv
    × ((handle_create_account signing counted "c-1" 0
          (ok request)
          (ok (key32 5 ++ key32 5))
          server
          0).1
        ≡ created_response signing tx priv)
handle_create_account-Holds_example =
    handle_create_account-Holds signing counted server 0 "c-1" 0 (ok request)
      (ok (key32 5 ++ key32 5)) answer new_requests-IsRequestPool answered

-- The validator closes the account of a person, whose money goes to the treasury.
abbrev ending : CloseAccountRequest
ending = record { destination = "" }

abbrev goodbye : CloseAccountResponse
goodbye = record {
  tx_id = "x-1";
  account_id = "ana";
  destination = "federal_treasury";
  transferred = pos 300;
}

ended :
    (handle_close_account signing counted "x-1" 0 "ana" "" (ok ending) server 0).1.payload
    ≡ closed goodbye
unfolding handle_close_account build_close remove_keystore validate_close clone
    validate_account_close check_close_account check_close_key check_destination
    check_close_signature resolve_close_destination account_pub_key sign verify parse_private_key
    parse_public_key account_close_sign_bytes try_add_request new_requests state_copy
    verify_any_validator
ended = refl

handle_close_account-Holds_example :
    (tx : AccountCloseTransaction) × (acct : Account) × IsDrawn signing server "ana" "" tx acct
    × HoldsClose signing server
        (handle_close_account signing counted "x-1" 0 "ana" "" (ok ending) server 0).0.0
        tx
    × ((handle_close_account signing counted "x-1" 0 "ana" "" (ok ending) server 0).1
        ≡ closed_response tx acct)
    × Tells signing server tx acct goodbye
handle_close_account-Holds_example =
    handle_close_account-Holds signing server counted 0 "x-1" 0 "ana" "" (ok ending) goodbye
      new_requests-IsRequestPool ended

-- A request without an id.
abbrev unnamed : Submission
unnamed = create_account (ok (record { id = ""; type = "person" })) (ok (key32 5 ++ key32 5))

unnamed-IsClientError : IsClientError (handle signing counted unnamed "c-1" 0 server 0).1
unfolding handle_create_account build_create
unnamed-IsClientError = (omega arith, omega arith)

handle-Rejects_example : (handle signing counted unnamed "c-1" 0 server 0).0 ≡ (server, 0)
handle-Rejects_example =
    handle-Rejects signing counted unnamed "c-1" 0 server 0 unnamed-IsClientError

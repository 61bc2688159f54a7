-- ===== src/Api/Requests.antt =====
-- internal/api/transactions.go and blocks.go: the handlers of payments and blocks. The viewer is the one
-- that ResolveViewer makes of the request's key, on the server's keystore.
use pixie_block.Base.{ℕ, String, Option, none, some, ◌==◌, if◌then◌else◌}
use pixie_block.Base.Int.{ℤ, pos, leb_ℤ}
use pixie_block.Base.Int64.{sub64}
use pixie_block.Base.Result.{ok, err}
use pixie_block.Errors
use pixie_block.Errors.{Error, Result}
use pixie_block.Domain.{PaymentTransaction, Block}
use pixie_block.Crypto.{Primitives}
use pixie_block.Mempool.Pool.{try_add, get}
use pixie_block.Chain.{state_copy, validate_admit, latest_block, get_block, get_transaction}
use pixie_block.Api.{
  Viewer, Encodings, resolve_viewer, account_pub_key_b64, present_tx, present_block,
}
use pixie_block.Api.Submissions.{SubmitTxRequest, build_transaction}
use pixie_block.Api.Server.{
  Server, Surroundings, Response, write_json, write_error, payment, payment_view, block_view,
}

module _ {DB : Type 0} (p : Primitives) where
  module _ {W : Type 0} (out : Surroundings W) where
    -- What follows once the payment is in the pool.
    abbrev pub finish_submit : PaymentTransaction → Server DB → W → (Server DB × W) × Response
    finish_submit tx s w =
        let (sent, failure) = out.submit_transaction tx w in
        elim failure [
          | some x ↦ ((s, sent), write_error 500 x)
          | none ↦ ((s, sent), write_json 201 (payment tx))
        ]

    abbrev pub admit_built : Result PaymentTransaction → Server DB → W → (Server DB × W) × Response
    admit_built (err e) s w = ((s, w), write_error 400 e)
    admit_built (ok tx) s w =
        let (pool, e) =
          try_add tx (some (λ reserved. validate_admit p tx reserved s.chain)) s.mempool in
        elim e [
          | some x ↦ ((s, w), write_error 400 x)
          | none ↦ finish_submit tx (record s { mempool = pool }) w
        ]

  unfoldable pub handle_transactions :
      {W : Type 0}
      → Surroundings W
      → String
      → ℕ
      → Result SubmitTxRequest
      → Server DB
      → W
      → (Server DB × W) × Response
  handle_transactions out id now (err e) s w = ((s, w), write_error 400 e)
  handle_transactions out id now (ok req) s w =
      admit_built out (build_transaction p id now s.keystore (state_copy s.chain) req) s w

  abbrev pub viewer_from : String → Server DB → Viewer
  viewer_from pkey s = resolve_viewer p s.keystore s.validator_priv_b64 pkey

  abbrev pub key_of_account : Server DB → String → String
  key_of_account s id = account_pub_key_b64 p s.keystore (state_copy s.chain) id

  module _ (enc : Encodings) (pkey : String) (s : Server DB) where
    -- A payment of the chain, or else a pending one.
    unfoldable pub handle_transaction_by_id : String → Response
    handle_transaction_by_id id =
        let found : Option PaymentTransaction = elim (get_transaction id s.chain) [
          | some tx ↦ some tx
          | none ↦ get id s.mempool
        ] in
        if id == "" then write_error 400 Errors.transaction_id_missing else elim found [
          | none ↦ write_error 404 Errors.transaction_not_found
          | some tx ↦
              write_json 200
                (payment_view (present_tx p enc (key_of_account s) (viewer_from pkey s) tx))
        ]

    abbrev pub presented : Block → Response
    presented block =
        write_json 200
          (block_view (present_block p enc (key_of_account s) (viewer_from pkey s) block))

    abbrev found_or : Error → Option Block → Response
    found_or e none = write_error 404 e
    found_or e (some block) = presented block

    -- LatestBlock panics on a chain without blocks, where there is no response.
    unfoldable pub handle_latest_block : Result Response
    handle_latest_block = elim (latest_block s.chain) [
      | err e ↦ err e
      | ok latest ↦ ok (presented latest)
    ]

    unfoldable pub handle_previous_block : Result Response
    handle_previous_block = elim (latest_block s.chain) [
      | err e ↦ err e
      | ok latest ↦
          if leb_ℤ latest.height (pos 0)
          then ok (write_error 404 Errors.no_previous_block)
          else ok (
              found_or Errors.previous_block_not_found
                (get_block (sub64 latest.height (pos 1)) s.chain))
    ]

    -- `height` is what strconv.ParseInt makes of the path.
    unfoldable pub handle_block_by_height : String → Option ℤ → Result Response
    unfolding handle_latest_block handle_previous_block
    handle_block_by_height path height =
        if path == "latest"
        then handle_latest_block
        else if path == "previous"
        then handle_previous_block
        else elim height [
          | none ↦ ok (write_error 400 Errors.invalid_block_height)
          | some h ↦ ok (found_or Errors.block_not_found (get_block h s.chain))
        ]

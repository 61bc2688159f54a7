-- ===== src/Api/Rejections.antt =====
-- internal/api/accounts.go and transactions.go: what the handlers leave behind by their status.
use pixie_block.Base.{
  ℕ, String, Option, none, some, ◌≡◌, refl, arith, ◌≤◌, ◌<◌, Option-cases, inl, inr,
}
use pixie_block.Base.Result.{ok, err}
use pixie_block.Errors.{Error, Result}
use pixie_block.Domain.{
  Bytes, Account, PaymentTransaction, AccountCreateTransaction, AccountCloseTransaction,
}
use pixie_block.Crypto.{Primitives}
use pixie_block.Mempool.Pool.{try_add}
use pixie_block.Mempool.AccountCreates.{try_add_create}
use pixie_block.Mempool.AccountCloses.{try_add_close}
use pixie_block.Chain.{state_copy, validate_admit}
use pixie_block.Api.Submissions.{SubmitTxRequest, build_transaction}
use pixie_block.Api.Server.{
  Server, Surroundings, Response, Checked, write_error, append_keystore, remove_keystore,
}
use pixie_block.Api.Accounts.{
  CreateAccountRequest, build_create, finish_create, handle_create_account,
}
use pixie_block.Api.Closings.{CloseAccountRequest, build_close, finish_close, handle_close_account}
use pixie_block.Api.Requests.{admit_built, finish_submit, handle_transactions}

-- A status of 400 to 499.
abbrev pub IsClientError : Response → Type 0
IsClientError r = (400 ≤ r.status) × (r.status < 500)

-- The server and its surroundings are as they were.
abbrev Rejects : {DB W : Type 0} → Server DB → W → (Server DB × W) × Response → Type 0
Rejects s w r = IsClientError r.1 → r.0 ≡ (s, w)

module _ {DB W : Type 0} (p : Primitives) (out : Surroundings W) (s : Server DB) (w : W) where
  finish_create-Rejects :
      (tx : AccountCreateTransaction) (priv : Bytes) (t : Server DB)
      → Rejects s w (finish_create p out tx priv t w)
  finish_create-Rejects tx priv t (low, high) =
      elim (Option-cases (out.submit_account_create tx w).1) [
        | inr (x, e) ↦ absurd (ground arith)
        | inl e ↦
            elim (Option-cases
              (append_keystore out tx.account.id (p.base64_encode priv) t
                (out.submit_account_create tx w).0).1) [
                  | inr (x, f) ↦ absurd (ground arith)
                  | inl f ↦ absurd (ground arith)
                ]
      ]

  finish_close-Rejects :
      (tx : AccountCloseTransaction) (acct : Account) (t : Server DB)
      → Rejects s w (finish_close p out tx acct t w)
  finish_close-Rejects tx acct t (low, high) =
      elim (Option-cases (out.submit_account_close tx w).1) [
        | inr (x, e) ↦ absurd (ground arith)
        | inl e ↦
            elim (Option-cases
              (remove_keystore out tx.account_id t (out.submit_account_close tx w).0).1) [
                | inr (x, f) ↦ absurd (ground arith)
                | inl f ↦ absurd (ground arith)
              ]
      ]

  add_then-Rejects :
      {P : Type 0} (added : P × Option Error) (set : P → Server DB)
      (finish : Server DB → (Server DB × W) × Response)
      → ((t : Server DB) → Rejects s w (finish t))
      → Rejects s w
          (elim added.1 [ some x ↦ ((s, w), write_error 400 x) | none ↦ finish (set added.0) ])
  add_then-Rejects (pool, some x) set finish h = λ client. refl
  add_then-Rejects (pool, none) set finish h = h (set pool)

  create_then-Rejects :
      (built : Checked (AccountCreateTransaction × Bytes))
      → Rejects s w (elim built [
        | err (status, e) ↦ ((s, w), write_error status e)
        | ok (tx, priv) ↦
            let (pool, e) = try_add_create tx none s.create_pool in
            elim e [
              | some x ↦ ((s, w), write_error 400 x)
              | none ↦ finish_create p out tx priv (record s { create_pool = pool }) w
            ]
      ])
  create_then-Rejects (err (status, e)) = λ client. refl
  create_then-Rejects (ok (tx, priv)) =
      add_then-Rejects (try_add_create tx none s.create_pool)
        (λ pool. record s { create_pool = pool }) (λ t. finish_create p out tx priv t w)
        (finish_create-Rejects tx priv)

  close_then-Rejects :
      (built : Checked (AccountCloseTransaction × Account))
      → Rejects s w (elim built [
        | err (status, e) ↦ ((s, w), write_error status e)
        | ok (tx, acct) ↦
            let (pool, e) = try_add_close tx none s.close_pool in
            elim e [
              | some x ↦ ((s, w), write_error 400 x)
              | none ↦ finish_close p out tx acct (record s { close_pool = pool }) w
            ]
      ])
  close_then-Rejects (err (status, e)) = λ client. refl
  close_then-Rejects (ok (tx, acct)) =
      add_then-Rejects (try_add_close tx none s.close_pool) (λ pool. record s { close_pool = pool })
        (λ t. finish_close p out tx acct t w) (finish_close-Rejects tx acct)

  submit_then-Rejects :
      (tx : PaymentTransaction) (t : Server DB) → Rejects s w (finish_submit p out tx t w)
  submit_then-Rejects tx t (low, high) = elim (Option-cases (out.submit_transaction tx w).1) [
    | inr (x, e) ↦ absurd (ground arith)
    | inl e ↦ absurd (ground arith)
  ]

  admit_built-Rejects :
      (built : Result PaymentTransaction) → Rejects s w (admit_built p out built s w)
  admit_built-Rejects (err e) = λ client. refl
  admit_built-Rejects (ok tx) =
      add_then-Rejects
        (try_add tx (some (λ reserved. validate_admit p tx reserved s.chain)) s.mempool)
        (λ pool. record s { mempool = pool }) (λ t. finish_submit p out tx t w)
        (submit_then-Rejects tx)

  transactions-Rejects :
      (id : String) (now : ℕ) (body : Result SubmitTxRequest)
      → Rejects s w (handle_transactions p out id now body s w)
  unfolding handle_transactions
  transactions-Rejects id now (err e) = λ client. refl
  transactions-Rejects id now (ok req) =
      admit_built-Rejects (build_transaction p id now s.keystore (state_copy s.chain) req)

-- The requests that change something, each with what the handler takes of it.
pub data Submission : Type 0 where
  create_account : Result CreateAccountRequest → Result Bytes → Submission
  close_account : String → String → Result CloseAccountRequest → Submission
  pay : Result SubmitTxRequest → Submission

module _ {DB W : Type 0} (p : Primitives) (out : Surroundings W) where
  abbrev pub handle : Submission → String → ℕ → Server DB → W → (Server DB × W) × Response
  handle (create_account body generated) id now s w =
      handle_create_account p out id now body generated s w
  handle (close_account account_id pkey body) id now s w =
      handle_close_account p out id now account_id pkey body s w
  handle (pay body) id now s w = handle_transactions p out id now body s w

  -- For every server, every surroundings and every request to create an account, to close one or to
  -- pay, decoded or not: if the handler answers with a status of 400 to 499, it has left the server
  -- (its pools, its keystore and its chain) and the surroundings (what was sent, the keystore's file)
  -- as they were.
  pub handle-Rejects :
      (req : Submission) (id : String) (now : ℕ) (s : Server DB) (w : W)
      → IsClientError (handle req id now s w).1
      → (handle req id now s w).0 ≡ (s, w)
  unfolding handle_create_account handle_close_account
  handle-Rejects (create_account body generated) id now s w =
      create_then-Rejects p out s w (build_create p id now body generated s)
  handle-Rejects (close_account account_id pkey body) id now s w =
      close_then-Rejects p out s w (build_close p id now account_id pkey body s)
  handle-Rejects (pay body) id now s w = transactions-Rejects p out s w id now body

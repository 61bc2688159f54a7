-- ===== src/Api/Creates.antt =====
-- internal/api/accounts.go: what an account that the server has created comes with.
use pixie_block.Base.{
  ℕ, String, none, some, ◌≡◌, refl, sym, subst, arith, Option-cases, Bool-cases, ◌==◌, inl, inr,
}
use pixie_block.Base.Int.{pos}
use pixie_block.Base.Dict.{lookup, contains}
use pixie_block.Base.Result.{ok, err, wrap_err, Result-cases}
use pixie_block.Errors.{Error, Result}
use pixie_block.Domain.{Bytes, AccountCreateTransaction}
use pixie_block.Crypto.{Primitives, account_create_sign_bytes, sign, parse_private_key}
use pixie_block.Config.{append_entry}
use pixie_block.Mempool.Requests.Invariant.{
  IsRequestPool, AddsRequest-added, try_add_request-AddsRequest,
}
use pixie_block.Mempool.AccountCreates.{AccountCreatePool, try_add_create, create_id}
use pixie_block.Chain.{validate_create}
use pixie_block.Api.Server.{
  Server, Surroundings, CreateAccountResponse, created, with_status, append_keystore,
}
use pixie_block.Api.Accounts.{
  CreateAccountRequest, build_create, finish_create, handle_create_account, created_response,
  draft_create, may_create,
}

wrap_err-ok :
    {A : Type 0} (f : Error → Error) (run : Result A) (a : A) → wrap_err f run ≡ ok a → run ≡ ok a
wrap_err-ok f (ok x) a h = h
wrap_err-ok f (err e) a h = absurd (ground arith)

pub with_status-ok :
    {A : Type 0} (n : ℕ) (run : Result A) (a : A) → with_status n run ≡ ok a → run ≡ ok a
with_status-ok n (ok x) a h = ground arith
with_status-ok n (err e) a h = absurd (ground arith)

-- A create that the ledger accepts, for the generated key.
pub record IsBuilt {DB : Type 0} (p : Primitives) (s : Server DB) (generated : Result Bytes)
    (tx : AccountCreateTransaction) (priv : Bytes) : Type 0 where
  pub made : generated ≡ ok priv
  pub valid : validate_create p tx s.chain ≡ ok tt
  pub key : tx.public_key ≡ p.base64_encode (p.ed25519_public priv)
  pub empty : tx.account.balance ≡ pos 0

module _ {DB W : Type 0} (p : Primitives) (out : Surroundings W) (s : Server DB) (w : W) where
  build_create-IsBuilt :
      (id : String) (now : ℕ) (body : Result CreateAccountRequest) (generated : Result Bytes)
      (tx : AccountCreateTransaction) (priv : Bytes)
      → build_create p id now body generated s ≡ ok (tx, priv)
      → IsBuilt p s generated tx priv
  unfolding build_create
  build_create-IsBuilt id now (err e) generated tx priv h =
      absurd
        (elim (Bool-cases (may_create p s)) [ inl may ↦ ground arith | inr not ↦ ground arith ])
  build_create-IsBuilt id now (ok req) (err e) tx priv h =
      absurd (elim (Bool-cases (may_create p s)) [
        | inr not ↦ ground arith
        | inl may ↦ elim (Bool-cases (req.id == "")) [
          | inl unnamed ↦ ground arith
          | inr named ↦ ground arith
        ]
      ])
  build_create-IsBuilt id now (ok req) (ok key) tx priv h =
      let draft = draft_create p id now req key in
      elim (Bool-cases (may_create p s)) [
        | inr not ↦ absurd (ground arith)
        | inl may ↦ elim (Bool-cases (req.id == "")) [
          | inl unnamed ↦ absurd (ground arith)
          | inr named ↦ elim (Result-cases (parse_private_key p s.validator_priv_b64)) [
            | inr (e, f) ↦ absurd (ground arith)
            | inl (signer, f) ↦ elim (Result-cases (account_create_sign_bytes p draft)) [
              | inr (e, g) ↦ absurd (ground arith)
              | inl (bytes, g) ↦
                  let signed = record draft { signature = sign p signer bytes } in
                  elim (Result-cases (validate_create p signed s.chain)) [
                    | inr (e, v) ↦ absurd (ground arith)
                    | inl (done, v) ↦
                        let pair : AccountCreateTransaction × Bytes = (signed, key) in
                        let same : pair ≡ (tx, priv) = ground arith in
                        subst (λ x. IsBuilt p s (ok key) x.0 x.1) same
                          (record { made = refl; valid = v; key = refl; empty = refl })
                  ]
            ]
          ]
        ]
      ]

  -- What the server holds after the create.
  pub record Holds (t : Server DB) (tx : AccountCreateTransaction) (priv : Bytes) : Type 0 where
    pub pending : lookup tx.id t.create_pool.items ≡ some tx
    pub pool : IsRequestPool t.create_pool
    pub key :
        t.keystore
        ≡ append_entry
            (record { account_id = tx.account.id; private_key = p.base64_encode priv })
            s.keystore
    pub chain : t.chain ≡ s.chain

  append_keystore-keystore :
      (id priv_b64 : String) (t : Server DB) (sent : W)
      → (append_keystore out id priv_b64 t sent).0.0 ≡ record t {
        keystore = append_entry (record { account_id = id; private_key = priv_b64 }) t.keystore;
      }
  unfolding append_keystore
  append_keystore-keystore id priv_b64 t sent = elim (Bool-cases (t.keystore_path == "")) [
    | inl volatile ↦ rw volatile refl
    | inr kept ↦ rw kept refl
  ]

  finish_create-Holds :
      (tx : AccountCreateTransaction) (priv : Bytes) (pool : AccountCreatePool)
      (response : CreateAccountResponse)
      → lookup tx.id pool.items ≡ some tx
      → IsRequestPool pool
      → let r = finish_create p out tx priv (record s { create_pool = pool }) w in
        r.1.payload ≡ created response → Holds r.0.0 tx priv × (r.1 ≡ created_response p tx priv)
  finish_create-Holds tx priv pool response found valid h =
      elim (Option-cases (out.submit_account_create tx w).1) [
        | inr (x, e) ↦ absurd (ground arith)
        | inl e ↦
            let sent = (out.submit_account_create tx w).0 in
            let t = record s { create_pool = pool } in
            elim (Option-cases
              (append_keystore out tx.account.id (p.base64_encode priv) t sent).1) [
                | inr (x, f) ↦ absurd (ground arith)
                | inl f ↦
                    let state =
                      append_keystore-keystore tx.account.id (p.base64_encode priv) t sent in
                    rw (e, f, finish_create)
                      (
                        subst (λ x. Holds x tx priv) (sym state)
                            (record { pending = found; pool = valid; key = refl; chain = refl }),
                        refl,
                      )
              ]
      ]

  -- For every server whose pool of creates satisfies its invariant and every request, whatever the
  -- surroundings do: if the handler answers that an account was created, then for the key pair that was
  -- generated there is a create that ValidateAccountCreate accepts, of an account with no balance and
  -- with that public key. The answer names its account, key and id with the private key; the create is
  -- pending under its id, the pool satisfies its invariant, the private key stands in the keystore
  -- behind the entries from before, and the chain is as it was.
  pub handle_create_account-Holds :
      (id : String) (now : ℕ) (body : Result CreateAccountRequest) (generated : Result Bytes)
      (response : CreateAccountResponse)
      → IsRequestPool s.create_pool
      → (handle_create_account p out id now body generated s w).1.payload ≡ created response
      → let r = handle_create_account p out id now body generated s w in
        (tx : AccountCreateTransaction) × (priv : Bytes) × IsBuilt p s generated tx priv
        × Holds r.0.0 tx priv
        × (r.1 ≡ created_response p tx priv)
  unfolding handle_create_account
  handle_create_account-Holds id now body generated response v h =
      elim (Result-cases (build_create p id now body generated s)) [
        | inr (f, e) ↦ absurd (ground arith)
        | inl (built, e) ↦
            let (tx, priv) = built in
            elim (Option-cases (try_add_create tx none s.create_pool).1) [
              | inr (x, a) ↦ absurd (ground arith)
              | inl a ↦
                  let (found, valid) =
                    AddsRequest-added tx.id tx s.create_pool (contains tx.id s.create_pool.items)
                      (try_add_create tx none s.create_pool)
                      (try_add_request-AddsRequest create_id tx none s.create_pool v) a in
                  let (held, told) =
                    finish_create-Holds tx priv (try_add_create tx none s.create_pool).0 response
                      found valid (rw (e, a, handle_create_account) at h) in
                  rw (e, a, handle_create_account)
                    (tx, priv, build_create-IsBuilt id now body generated tx priv e, held, told)
            ]
      ]

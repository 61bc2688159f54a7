-- ===== src/Api/Closes.antt =====
-- internal/api/accounts.go: what an account that the server says it has closed comes with.
use pixie_block.Base.{
  if◌then◌else◌, ap, ◌∙◌, ℕ, String, none, some, ◌≡◌, refl, sym, subst, arith, Option-cases,
  Bool-cases, ◌==◌, inl, inr,
}
use pixie_block.Base.Int.{pos}
use pixie_block.Ledger.Accounts.{resolve_close_destination}
use pixie_block.Base.Dict.{lookup, contains}
use pixie_block.Base.Result.{Result-cases}
use pixie_block.Errors.{Result}
use pixie_block.Domain.{Account, AccountCloseTransaction}
use pixie_block.Crypto.{Primitives}
use pixie_block.Config.{remove_entry}
use pixie_block.Mempool.Requests.Invariant.{
  IsRequestPool, AddsRequest-added, try_add_request-AddsRequest,
}
use pixie_block.Mempool.AccountCloses.{AccountClosePool, try_add_close, close_id}
use pixie_block.Api.Server.{Server, Surroundings, CloseAccountResponse, closed, remove_keystore}
use pixie_block.Api.Closings.{
  CloseAccountRequest, build_close, finish_close, handle_close_account, closed_response,
}
use pixie_block.Api.Drafts.{IsDrawn, build_close-IsDrawn}

module _ {DB : Type 0} (p : Primitives) (s : Server DB) where
  -- What the client is told: the destination and the amount are those of a person's account.
  pub record Tells (tx : AccountCloseTransaction) (acct : Account) (response : CloseAccountResponse)
      : Type 0 where
    pub id : response.tx_id ≡ tx.id
    pub account : response.account_id ≡ tx.account_id
    pub destination : response.destination ≡ (
        if acct.type == "person"
        then if tx.destination == "" then "federal_treasury" else tx.destination
        else "")
    pub transferred : response.transferred ≡ (if acct.type == "person" then acct.balance else pos 0)

  closed_response-Tells :
      (tx : AccountCloseTransaction) (acct : Account) (response : CloseAccountResponse)
      → (closed_response tx acct).payload ≡ closed response
      → Tells tx acct response
  unfolding resolve_close_destination
  closed_response-Tells tx acct response h = record {
    id = cc;
    account = cc;
    destination = cc;
    transferred = cc;
  }

  -- What the server holds after the close.
  pub record HoldsClose (t : Server DB) (tx : AccountCloseTransaction) : Type 0 where
    pub pending : lookup tx.id t.close_pool.items ≡ some tx
    pub pool : IsRequestPool t.close_pool
    pub keys : t.keystore ≡ remove_entry tx.account_id s.keystore
    pub chain : t.chain ≡ s.chain

  module _ {W : Type 0} (out : Surroundings W) (w : W) where
    remove_keystore-keystore :
        (id : String) (t : Server DB) (sent : W)
        → (remove_keystore out id t sent).0.0 ≡ record t { keystore = remove_entry id t.keystore }
    unfolding remove_keystore
    remove_keystore-keystore id t sent = elim (Bool-cases (t.keystore_path == "")) [
      | inl volatile ↦ rw volatile refl
      | inr kept ↦ rw kept refl
    ]

    finish_close-Holds :
        (tx : AccountCloseTransaction) (acct : Account) (pool : AccountClosePool)
        (response : CloseAccountResponse)
        → lookup tx.id pool.items ≡ some tx
        → IsRequestPool pool
        → let r = finish_close p out tx acct (record s { close_pool = pool }) w in
          r.1.payload ≡ closed response → HoldsClose r.0.0 tx × (r.1 ≡ closed_response tx acct)
    finish_close-Holds tx acct pool response found valid h =
        elim (Option-cases (out.submit_account_close tx w).1) [
          | inr (x, e) ↦ absurd (ground arith)
          | inl e ↦
              let sent = (out.submit_account_close tx w).0 in
              let t = record s { close_pool = pool } in
              elim (Option-cases (remove_keystore out tx.account_id t sent).1) [
                | inr (x, f) ↦ absurd (ground arith)
                | inl f ↦
                    let state = remove_keystore-keystore tx.account_id t sent in
                    rw (e, f, finish_close)
                      (
                        subst (λ x. HoldsClose x tx) (sym state)
                            (record { pending = found; pool = valid; keys = refl; chain = refl }),
                        refl,
                      )
              ]
        ]

    -- For every server whose pool of closes satisfies its invariant and every request, whatever the
    -- surroundings do: if the handler answers that an account was closed, then the account was
    -- there, and there is a close of it that ValidateAccountClose accepts. A person's account is
    -- only closed by a server that may create accounts, and a merchant's only with a private key
    -- that stands for that account or has the account's public key. The answer names the close and
    -- the account; for a person the amount is the balance of the account and the destination the one
    -- that the close names, or federal_treasury if it names none, and for a merchant they are 0 and
    -- empty. The close is pending under its id, the pool satisfies its invariant, the account's
    -- entries are gone from the keystore, and the chain is as it was.
    pub handle_close_account-Holds :
        (id : String) (now : ℕ) (account_id pkey : String) (body : Result CloseAccountRequest)
        (response : CloseAccountResponse)
        → IsRequestPool s.close_pool
        → (handle_close_account p out id now account_id pkey body s w).1.payload ≡ closed response
        → let r = handle_close_account p out id now account_id pkey body s w in
          (tx : AccountCloseTransaction) × (acct : Account) × IsDrawn p s account_id pkey tx acct
          × HoldsClose r.0.0 tx
          × (r.1 ≡ closed_response tx acct)
          × Tells tx acct response
    unfolding handle_close_account
    handle_close_account-Holds id now account_id pkey body response v h =
        elim (Result-cases (build_close p id now account_id pkey body s)) [
          | inr (f, e) ↦ absurd (ground arith)
          | inl (built, e) ↦
              let (tx, acct) = built in
              elim (Option-cases (try_add_close tx none s.close_pool).1) [
                | inr (x, a) ↦ absurd (ground arith)
                | inl a ↦
                    let (found, valid) =
                      AddsRequest-added tx.id tx s.close_pool (contains tx.id s.close_pool.items)
                        (try_add_close tx none s.close_pool)
                        (try_add_request-AddsRequest close_id tx none s.close_pool v) a in
                    let answered = rw (e, a, handle_close_account) at h in
                    let (held, told) =
                      finish_close-Holds tx acct (try_add_close tx none s.close_pool).0 response
                        found valid answered in
                    rw (e, a, handle_close_account)
                      (
                        tx,
                        acct,
                        build_close-IsDrawn p s id now account_id pkey body tx acct e,
                        held,
                        told,
                        closed_response-Tells tx acct response
                            (sym (ap (λ q. q.payload) told) ∙ answered),
                      )
              ]
        ]

-- ===== src/Api/Server.antt =====
-- internal/api/server.go and response.go: the server's state, and what a handler writes. A handler takes
-- the decoded body of its request. Its surroundings are a state of the type `W`: what has been sent to
-- the peers and the keystore's file. `cmd/server` gives the server all three pools and submitters.
use pixie_block.Base.{ℕ, String, Bool, List, Option, none, ◌==◌, if◌then◌else◌}
use pixie_block.Base.Int.{ℤ}
use pixie_block.Base.Result.{Result as ResultOf, ok, err}
use pixie_block.Errors
use pixie_block.Errors.{Error, Result}
use pixie_block.Domain.{
  Account, PaymentTransaction, AccountCreateTransaction, AccountCloseTransaction,
}
use pixie_block.Config.{Keystore, append_entry, remove_entry}
use pixie_block.Mempool.Pool.{Pool}
use pixie_block.Mempool.AccountCreates.{AccountCreatePool}
use pixie_block.Mempool.AccountCloses.{AccountClosePool}
use pixie_block.Chain.{Blockchain}
use pixie_block.Api.{View, PublicTx, PublicBlock}

pub record Server (DB : Type 0) : Type 0 where
  pub chain : Blockchain DB
  pub mempool : Pool
  pub create_pool : AccountCreatePool
  pub close_pool : AccountClosePool
  pub keystore : Keystore
  pub keystore_path : String
  pub validator_priv_b64 : String
  pub can_create_accounts : Bool

-- The three submitters, and `config.SaveKeystore`.
pub record Surroundings (W : Type 0) : Type 0 where
  pub submit_transaction : PaymentTransaction → W → W × Option Error
  pub submit_account_create : AccountCreateTransaction → W → W × Option Error
  pub submit_account_close : AccountCloseTransaction → W → W × Option Error
  pub save_keystore : String → Keystore → W → W × Option Error

pub record CreateAccountResponse : Type 0 where
  pub account : Account
  pub public_key : String
  pub private_key : String
  pub tx_id : String

pub record CloseAccountResponse : Type 0 where
  pub tx_id : String
  pub account_id : String
  pub destination : String
  pub transferred : ℤ

-- What the handlers write as JSON.
pub data Body : Type 0 where
  failed : Error → Body
  accounts : List Account → Body
  account : Account → Body
  created : CreateAccountResponse → Body
  closed : CloseAccountResponse → Body
  payment : PaymentTransaction → Body
  payment_view : View PaymentTransaction PublicTx → Body
  block_view : PublicBlock → Body

pub record Response : Type 0 where
  pub status : ℕ
  pub payload : Body

abbrev pub write_json : ℕ → Body → Response
write_json status payload = record { status = status; payload = payload }

abbrev pub write_error : ℕ → Error → Response
write_error status e = write_json status (failed e)

abbrev pub method_not_allowed : Response
method_not_allowed = write_error 405 Errors.method_not_allowed

-- `if err != nil { writeError(w, status, err.Error()); return }` in a chain of such steps.
abbrev pub Checked : Type 0 → Type 0
Checked A = ResultOf (ℕ × Error) A

abbrev pub with_status : {A : Type 0} → ℕ → Result A → Checked A
with_status status (ok a) = ok a
with_status status (err e) = err (status, e)

module _ {DB W : Type 0} (out : Surroundings W) where
  abbrev save_unless_volatile : Server DB → W → (Server DB × W) × Option Error
  save_unless_volatile s w =
      let (saved, e) = out.save_keystore s.keystore_path s.keystore w in
      if s.keystore_path == "" then ((s, w), none) else ((s, saved), e)

  unfoldable pub append_keystore : String → String → Server DB → W → (Server DB × W) × Option Error
  append_keystore account_id priv_b64 s w =
      save_unless_volatile
        (record s {
          keystore =
              append_entry (record { account_id = account_id; private_key = priv_b64 }) s.keystore;
        })
        w

  unfoldable pub remove_keystore : String → Server DB → W → (Server DB × W) × Option Error
  remove_keystore account_id s w =
      save_unless_volatile (record s { keystore = remove_entry account_id s.keystore }) w

-- ===== src/Mempool/AccountCloses.antt =====
-- internal/mempool/account_closes.go: the pool of pending account closes.
use pixie_block.Base.{String, ⊤, List, [], Option, ℕ}
use pixie_block.Base.Int.{ℤ}
use pixie_block.Errors.{Error, Result}
use pixie_block.Domain.{AccountCloseTransaction}
use pixie_block.Mempool.Requests.{
  RequestPool, try_add_request, remove_requests, commit_requests, peek_requests, len_requests,
  get_request,
}

abbrev pub AccountClosePool : Type 0
AccountClosePool = RequestPool AccountCloseTransaction

abbrev pub close_id : AccountCloseTransaction → String
close_id tx = tx.id

abbrev pub zero_close : AccountCloseTransaction
zero_close = record {
  id = "";
  timestamp = 0;
  account_id = "";
  public_key = "";
  destination = "";
  signature = [];
}

abbrev pub new_close_pool : AccountClosePool
new_close_pool = record { items = []; order = [] }

abbrev pub try_add_close :
    AccountCloseTransaction → Option (Result ⊤) → AccountClosePool → AccountClosePool × Option Error
try_add_close tx check p = try_add_request close_id tx check p

abbrev pub remove_closes : List String → AccountClosePool → AccountClosePool
remove_closes ids p = remove_requests ids p

abbrev pub commit_closes :
    {W : Type 0}
    → List String
    → (W → W × Option Error)
    → AccountClosePool × W
    → (AccountClosePool × W) × Option Error
commit_closes ids fn s = commit_requests ids fn s

abbrev pub peek_closes : ℤ → AccountClosePool → List AccountCloseTransaction
peek_closes max p = peek_requests zero_close max p

abbrev pub len_closes : AccountClosePool → ℕ
len_closes p = len_requests p

abbrev pub get_close : String → AccountClosePool → Option AccountCloseTransaction
get_close id p = get_request id p

-- ===== src/Mempool/Requests.antt =====
-- internal/mempool/account_creates.go and account_closes.go: two pools with the same code, over the
-- two types of request. `id_of` is the field `ID` of the request.
pub mod Invariant
use pixie_block.Base.{
  ℕ, String, ⊤, List, [], ◌∷◌, ◌++◌, Option, none, some, length, take, map, filter_by,
  if◌then◌else◌,
}
use pixie_block.Base.Int.{ℤ}
use pixie_block.Base.Dict.{Dict, lookup, contains, insert, erase}
use pixie_block.Base.Result.{ok, err}
use pixie_block.Errors
use pixie_block.Errors.{Error, Result}
use pixie_block.Mempool.Pool.{peek_count, first_ids}

pub record RequestPool (T : Type 0) : Type 0 where
  pub items : Dict T
  pub order : List String

abbrev pub run_request_check : Option (Result ⊤) → Result ⊤
run_request_check none = ok tt
run_request_check (some check) = check

module _ {T : Type 0} where
  unfoldable pub new_requests : RequestPool T
  new_requests = record { items = []; order = [] }

  pub add_request : String → T → RequestPool T → RequestPool T
  add_request id tx p = record { items = insert id tx p.items; order = p.order ++ id ∷ [] }

  unfoldable pub try_add_request :
      (T → String) → T → Option (Result ⊤) → RequestPool T → RequestPool T × Option Error
  unfolding add_request
  try_add_request id_of tx check p =
      if contains (id_of tx) p.items
      then (p, some (Errors.already_in_mempool (id_of tx)))
      else elim (run_request_check check) [
        | ok _ ↦ (add_request (id_of tx) tx p, none)
        | err e ↦ (p, some e)
      ]

  pub erase_all : List String → RequestPool T → RequestPool T
  erase_all [] p = p
  erase_all (id ∷ ids) p = erase_all ids (record p { items = erase id p.items })

  pub keep_request_order : RequestPool T → RequestPool T
  keep_request_order p = record p { order = filter_by (λ id. contains id p.items) p.order }

  unfoldable pub remove_requests : List String → RequestPool T → RequestPool T
  unfolding erase_all keep_request_order
  remove_requests ids p = keep_request_order (erase_all ids p)

  unfoldable pub commit_requests :
      {W : Type 0}
      → List String
      → (W → W × Option Error)
      → RequestPool T × W
      → (RequestPool T × W) × Option Error
  unfolding remove_requests
  commit_requests ids fn (p, w) =
      let (w', e) = fn w in
      elim e [ none ↦ ((remove_requests ids p, w'), none) | some x ↦ ((p, w'), some x) ]

  -- `zero` is the value of a missing key.
  abbrev pub request_at : T → RequestPool T → String → T
  request_at zero p id = elim (lookup id p.items) [ none ↦ zero | some tx ↦ tx ]

  unfoldable pub peek_requests : T → ℤ → RequestPool T → List T
  peek_requests zero max p =
      map (request_at zero p) (first_ids (peek_count max (length p.order)) p.order)

  unfoldable pub len_requests : RequestPool T → ℕ
  len_requests p = length p.order

  unfoldable pub get_request : String → RequestPool T → Option T
  get_request id p = lookup id p.items

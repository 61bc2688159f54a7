-- ===== src/Mempool/Requests/Invariant.antt =====
-- internal/mempool/account_creates.go and account_closes.go: the invariant of a pool of requests.
use pixie_block.Base.{
  String, Bool, true, false, ⊤, List, [], ◌∷◌, ◌++◌, Option, none, some, ◌≡◌, refl, ap, ◌∙◌, arith,
  member, IsDistinct, append-IsDistinct, member-append, member-filter_by, filter_by-IsDistinct,
  if◌then◌else◌, eq_iff, eq_refl,
}
use pixie_block.Base.Dict.{
  lookup, contains, erase, IsMap, insert-IsMap, erase-IsMap, lookup-insert, lookup-erase,
}
use pixie_block.Base.Result.{ok, err}
use pixie_block.Errors
use pixie_block.Errors.{Error, Result}
use pixie_block.Mempool.Requests.{
  RequestPool, new_requests, add_request, run_request_check, try_add_request, erase_all,
  keep_request_order, remove_requests,
}

-- The order lists the ids of the map once each.
pub record IsRequestPool {T : Type 0} (p : RequestPool T) : Type 0 where
  pub map : IsMap p.items
  pub distinct : IsDistinct p.order
  pub listed : (id : String) → member id p.order ≡ contains id p.items

module _ {T : Type 0} where
  pub new_requests-IsRequestPool : IsRequestPool {T = T} new_requests
  unfolding new_requests
  new_requests-IsRequestPool = record { map = tt; distinct = tt; listed = λ id. refl }

  add_request-IsRequestPool :
      (id : String) (tx : T) (p : RequestPool T)
      → IsRequestPool p
      → contains id p.items ≡ false
      → IsRequestPool (add_request id tx p)
  unfolding add_request
  add_request-IsRequestPool id tx p v absent = record {
    map = insert-IsMap id tx p.items v.map;
    distinct = append-IsDistinct id p.order v.distinct (v.listed id ∙ absent);
    listed = λ j. ground (
      arith,
      member-append j p.order (id ∷ []),
      v.listed j,
      lookup-insert j id tx p.items,
      eq_iff id j,
    );
  }

  -- What TryAdd does, by whether the id is pending and by what the check returns.
  abbrev pub AddsRequest :
      String → T → RequestPool T → RequestPool T × Option Error → Bool → Result ⊤ → Type 0
  AddsRequest id tx p r true c = r ≡ (p, some (Errors.already_in_mempool id))
  AddsRequest id tx p r false (err e) = r ≡ (p, some e)
  AddsRequest id tx p r false (ok _) =
      (r.1 ≡ none)
      × IsRequestPool r.0
      × (lookup id r.0.items ≡ some tx)
      × (r.0.order ≡ p.order ++ id ∷ [])

  pub AddsRequest-added :
      (id : String) (tx : T) (p : RequestPool T) (known : Bool) (r : RequestPool T × Option Error)
      → AddsRequest id tx p r known (ok tt)
      → r.1 ≡ none
      → (lookup id r.0.items ≡ some tx) × IsRequestPool r.0
  AddsRequest-added id tx p true r h e = absurd (ground arith)
  AddsRequest-added id tx p false r h e = (h.2, h.1)

  request_then :
      (id : String) (tx : T) (p : RequestPool T) (known : Bool) (c : Result ⊤)
      → (known ≡ false → IsRequestPool (add_request id tx p))
      → AddsRequest id tx p
          (if known
            then (p, some (Errors.already_in_mempool id))
            else elim c [ ok _ ↦ (add_request id tx p, none) | err e ↦ (p, some e) ])
          known
          c
  unfolding add_request
  request_then id tx p true c h = refl
  request_then id tx p false (err e) h = refl
  request_then id tx p false (ok tt) h =
      (refl, h refl, ground (arith, lookup-insert id id tx p.items, eq_refl id), refl)

  -- For every pool that satisfies the invariant, request and check: if the id is pending or the check
  -- refuses, TryAdd returns that error and leaves the pool as it was. Otherwise it returns no error,
  -- the pool satisfies the invariant, and the request is pending under its id, at the end of the
  -- order.
  pub try_add_request-AddsRequest :
      (id_of : T → String) (tx : T) (check : Option (Result ⊤)) (p : RequestPool T)
      → IsRequestPool p
      → AddsRequest
          (id_of tx)
          tx
          p
          (try_add_request id_of tx check p)
          (contains (id_of tx) p.items)
          (run_request_check check)
  unfolding try_add_request
  try_add_request-AddsRequest id_of tx check p v =
      request_then (id_of tx) tx p (contains (id_of tx) p.items) (run_request_check check)
        (add_request-IsRequestPool (id_of tx) tx p v)

  erase_all-order : (ids : List String) (p : RequestPool T) → (erase_all ids p).order ≡ p.order
  unfolding erase_all
  erase_all-order [] p = refl
  erase_all-order (id ∷ ids) p = erase_all-order ids (record p { items = erase id p.items })

  erase_all-IsMap :
      (ids : List String) (p : RequestPool T) → IsMap p.items → IsMap (erase_all ids p).items
  unfolding erase_all
  erase_all-IsMap [] p m = m
  erase_all-IsMap (id ∷ ids) p m =
      erase_all-IsMap ids (record p { items = erase id p.items }) (erase-IsMap id p.items m)

  erase_all-contains :
      (ids : List String) (p : RequestPool T) (id : String)
      → contains id (erase_all ids p).items ≡ (if member id ids then false else contains id p.items)
  unfolding erase_all
  erase_all-contains [] p id = refl
  erase_all-contains (k ∷ ids) p id = ground (
    arith,
    erase_all-contains ids (record p { items = erase k p.items }) id,
    lookup-erase id k p.items,
  )

  -- For every pool that satisfies the invariant and every list of ids: after Remove the pool satisfies
  -- it too, the ids of the list are not pending, and every other id is pending exactly if it was.
  pub remove_requests-IsRequestPool :
      (ids : List String) (p : RequestPool T)
      → IsRequestPool p
      → IsRequestPool (remove_requests ids p)
        × ((id : String)
            → contains id (remove_requests ids p).items
              ≡ (if member id ids then false else contains id p.items))
  unfolding remove_requests keep_request_order
  remove_requests-IsRequestPool ids p v =
      let q = erase_all ids p in
      (
        record {
          map = erase_all-IsMap ids p v.map;
          distinct =
              filter_by-IsDistinct (λ id. contains id q.items) q.order
                (rw (erase_all-order ids p) v.distinct);
          listed = λ id. ground (
            arith,
            member-filter_by (λ j. contains j q.items) id q.order,
            ap (member id) (erase_all-order ids p),
            v.listed id,
            erase_all-contains ids p id,
          );
        },
        erase_all-contains ids p,
      )

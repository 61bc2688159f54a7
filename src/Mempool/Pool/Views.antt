-- ===== src/Mempool/Pool/Views.antt =====
-- internal/mempool/pool.go: Peek and Commit.
use pixie_block.Base.{
  ℕ, zero, suc, ◌≤◌, String, true, List, [], ◌∷◌, ◌++◌, Option, none, some, ◌≡◌, refl, sym, ap, ◌∙◌,
  arith, map, length, member, member-append, eq_refl, ◌&&◌, if◌then◌else◌,
}
use pixie_block.Base.Int.{ℤ, pos, ltb_ℤ, leb_ℤ}
use pixie_block.Base.Dict.{lookup, contains}
use pixie_block.Errors.{Error}
use pixie_block.Domain.{PaymentTransaction}
use pixie_block.Mempool.Pool.{Pool, peek, peek_count, first_ids, item_at, commit, remove}
use pixie_block.Mempool.Pool.Invariant.{IsPool}
use pixie_block.Mempool.Pool.Removal.{Loses, remove-IsPool, remove-Loses}

item_at-some :
    (p : Pool) (id : String) → contains id p.items ≡ true → some (item_at p id) ≡ lookup id p.items
item_at-some p id h = ground arith

items_at :
    (p : Pool) (ids : List String)
    → ((id : String) → member id ids ≡ true → contains id p.items ≡ true)
    → map some (map (item_at p) ids) ≡ map (λ id. lookup id p.items) ids
items_at p [] h = refl
items_at p (id ∷ ids) h =
    cc (item_at-some p id (h id (rw eq_refl)), items_at p ids (λ j m. h j (ground arith)))

-- Below the length, the loop over the indices takes a prefix of that many ids.
first_ids-prefix :
    (n : ℕ) (ids : List String)
    → n ≤ length ids
    → (rest : List String) × (first_ids n ids ++ rest ≡ ids) × (length (first_ids n ids) ≡ n)
first_ids-prefix zero ids h = (ids, refl, refl)
first_ids-prefix (suc n) [] h = absurd (omega (arith, h))
first_ids-prefix (suc n) (id ∷ ids) h =
    let (rest, e, l) = first_ids-prefix n ids (omega (arith, h)) in (rest, ap (◌∷◌ id) e, ap suc l)

map-append : {A B : Type 0} (f : A → B) (xs ys : List A) → map f (xs ++ ys) ≡ map f xs ++ map f ys
map-append f [] ys = refl
map-append f (x ∷ xs) ys = ap (◌∷◌ (f x)) (map-append f xs ys)

length-map : {A B : Type 0} (f : A → B) (xs : List A) → length (map f xs) ≡ length xs
length-map f [] = refl
length-map f (x ∷ xs) = ap suc (length-map f xs)

peek_count-le : (max : ℤ) (n : ℕ) → peek_count max n ≤ n
peek_count-le max n = ground arith

-- How many entries a bound asks for.
peek_count-pos :
    (max : ℤ) (n : ℕ)
    → pos (peek_count max n) ≡ (if ltb_ℤ (pos 0) max && leb_ℤ max (pos n) then max else pos n)
peek_count-pos max n = ground arith

-- For every pool that satisfies the invariant and every bound: what Peek returns, followed by some
-- rest, is the pending payments in the order of the pool, each the one that is stored under its id.
-- They are as many as the bound if it is positive and no larger than the pool, and all otherwise.
pub peek-pending :
    (max : ℤ) (p : Pool)
    → IsPool p
    → (rest : List (Option PaymentTransaction)) × (map some (peek max p) ++ rest
        ≡ map (λ id. lookup id p.items) p.order)
      × (pos (length (peek max p)) ≡ (
          if ltb_ℤ (pos 0) max && leb_ℤ max (pos (length p.order))
          then max
          else pos (length p.order)))
unfolding peek
peek-pending max p v =
    let n = peek_count max (length p.order) in
    let find : String → Option PaymentTransaction = λ id. lookup id p.items in
    let (rest, e, l) = first_ids-prefix n p.order (peek_count-le max (length p.order)) in
    let stored =
      items_at p (first_ids n p.order)
        (λ id m. sym (v.listed id) ∙ ap (member id) (sym e) ∙ member_front id _ rest m) in
    (
      map find rest,
      ap (λ xs. xs ++ map find rest) stored
          ∙ sym (map-append find (first_ids n p.order) rest)
          ∙ ap (map find) e,
      ap pos (length-map (item_at p) (first_ids n p.order) ∙ l)
          ∙ peek_count-pos max (length p.order),
    )
  where
    member_front :
        (id : String) (xs ys : List String) → member id xs ≡ true → member id (xs ++ ys) ≡ true
    member_front id xs ys h = ground (arith, member-append id xs ys)

-- What Commit leaves of the pool, by what `fn` returned.
abbrev pub Commits : List String → Pool → Pool → Option Error → Type 0
Commits ids p q none = Loses ids p q
Commits ids p q (some e) = q ≡ p

-- For every pool that satisfies the invariant, list of ids and call `fn` on what the caller owns:
-- Commit returns the error of `fn`, the caller's part is what `fn` made of it, and the pool satisfies
-- the invariant. If `fn` fails, the pool is as it was; otherwise the ids of the list are not pending,
-- every other payment is stored as it was, and the order is the order from before without those ids.
pub commit-IsPool :
    {W : Type 0} (ids : List String) (fn : W → W × Option Error) (p : Pool) (w : W)
    → IsPool p
    → let r = commit ids fn (p, w) in
      (r.1 ≡ (fn w).1) × (r.0.1 ≡ (fn w).0) × IsPool r.0.0 × Commits ids p r.0.0 (fn w).1
unfolding commit
commit-IsPool {W} ids fn p w v = commit_cases (fn w).0 (fn w).1
  where
    commit_cases :
        (w' : W) (e : Option Error)
        → let r : (Pool × W) × Option Error = elim e [
          | none ↦ ((remove ids p, w'), none)
          | some x ↦ ((p, w'), some x)
        ] in
          (r.1 ≡ e) × (r.0.1 ≡ w') × IsPool r.0.0 × Commits ids p r.0.0 e
    commit_cases w' none = (refl, refl, (remove-IsPool ids p v).0, remove-Loses ids p v)
    commit_cases w' (some x) = (refl, refl, v, refl)

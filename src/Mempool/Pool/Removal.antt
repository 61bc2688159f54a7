-- ===== src/Mempool/Pool/Removal.antt =====
-- internal/mempool/pool.go: Remove.
use pixie_block.Base.{
  String, Bool, true, false, not, none, filter_by, List, [], ◌∷◌, some, ◌≡◌, refl, ap, ◌∙◌, arith,
  member, member-filter_by, filter_by-IsDistinct, if◌then◌else◌, ◌==◌, eq_iff, eq_refl,
  Option-cases, Bool-cases, inl, inr,
}
use pixie_block.Base.Int.{ℤ, pos, ◌-ℤ◌, ◌≤ℤ◌, leb_ℤ, int_laws}
use pixie_block.Base.Int64.{sub64, wrap64_exact, IsInt64-of_bounds}
use pixie_block.Base.Dict.{
  Dict, lookup, contains, insert, erase, erase-IsMap, lookup-erase, erase-AllNonneg, sum_by_nonneg,
  measure_at, measure_at_nonneg,
}
use pixie_block.Domain.{PaymentTransaction, gross_amount}
use pixie_block.Mempool.Pool.{
  Pool, reserved_at, release_locked, remove_entry, remove_entries, keep_order, remove,
}
use pixie_block.Mempool.Pool.Invariant.{
  spend, pending, IsConsistent, IsPool, pending-erase, reserved_at-insert, reserved_at-erase,
}

-- An amount of zero that is deleted reads as zero.
released :
    (payer k : String) (left : ℤ) (d : Dict ℤ)
    → pos 0 ≤ℤ left
    → reserved_at payer (if leb_ℤ left (pos 0) then erase k (insert k left d) else insert k left d)
      ≡ (if k == payer then left else reserved_at payer d)
released payer k left d n =
    ground (arith, reserved_at-insert payer k left d, reserved_at-erase payer k (insert k left d))

-- Removing a pending payment.
module _ (id : String) (tx : PaymentTransaction) (p : Pool) (v : IsConsistent p)
    (found : lookup id p.items ≡ some tx) where
  erased_nonneg : (payer : String) → pos 0 ≤ℤ pending payer p -ℤ spend payer tx
  erased_nonneg payer = rw (pending-erase payer id tx p.items v.map found) at (
      sum_by_nonneg (spend payer) (erase id p.items)
        (erase-AllNonneg (spend payer) id p.items (v.positive payer)))

  spend_found : (payer : String) → pos 0 ≤ℤ spend payer tx
  spend_found payer =
      let here : measure_at (spend payer) id p.items ≡ spend payer tx = rw (found, measure_at) in
      rw here at (measure_at_nonneg (spend payer) id p.items (v.positive payer))

  spend_self : spend tx.payer.id tx ≡ gross_amount tx
  spend_self = rw eq_refl

  left_nonneg : pos 0 ≤ℤ pending tx.payer.id p -ℤ gross_amount tx
  left_nonneg = rw spend_self at (erased_nonneg tx.payer.id)

  left_exact :
      sub64 (reserved_at tx.payer.id p.reserved) (gross_amount tx)
      ≡ pending tx.payer.id p -ℤ gross_amount tx
  unfolding sub64
  left_exact =
      let gross : pos 0 ≤ℤ gross_amount tx = rw spend_self at (spend_found tx.payer.id) in
      rw (v.reserved tx.payer.id) (
        wrap64_exact _ (
          IsInt64-of_bounds _ (omega (arith, left_nonneg))
            (omega (int_laws, gross, v.bounded tx.payer.id))))

  remove_entry-IsConsistent : IsConsistent (remove_entry id p)
  unfolding remove_entry release_locked
  remove_entry-IsConsistent =
      rw (found, remove_entry)
        (record {
          map = erase-IsMap id p.items v.map;
          positive = λ payer. erase-AllNonneg (spend payer) id p.items (v.positive payer);
          bounded = λ payer.
              rw (pending-erase payer id tx p.items v.map found)
                (omega (int_laws, spend_found payer, v.bounded payer));
          reserved = λ payer.
              rw
                (
                  left_exact,
                  released payer tx.payer.id (pending tx.payer.id p -ℤ gross_amount tx) p.reserved
                      left_nonneg,
                  pending-erase payer id tx p.items v.map found,
                )
                (elim (Bool-cases (tx.payer.id == payer)) [
                  | inl e ↦ rw (e, ← (eq_iff tx.payer.id payer).0 e)
                  | inr e ↦ rw e (v.reserved payer ∙ omega int_laws)
                ]);
        })

remove_entries-IsConsistent :
    (ids : List String) (p : Pool) → IsConsistent p → IsConsistent (remove_entries ids p)
unfolding remove_entries
remove_entries-IsConsistent [] p v = v
remove_entries-IsConsistent (id ∷ ids) p v =
    remove_entries-IsConsistent ids (remove_entry id p) (elim (Option-cases (lookup id p.items)) [
      | inl e ↦ rw (e, remove_entry) v
      | inr (tx, e) ↦ remove_entry-IsConsistent id tx p v e
    ])

remove_entry-order : (id : String) (p : Pool) → (remove_entry id p).order ≡ p.order
unfolding remove_entry
remove_entry-order id p = ground arith

remove_entry-contains :
    (k id : String) (p : Pool)
    → contains id (remove_entry k p).items ≡ (if k == id then false else contains id p.items)
unfolding remove_entry
remove_entry-contains k id p = ground (arith, lookup-erase id k p.items, eq_iff k id)

-- The loop leaves the order alone and loses the ids that it is given.
remove_entries-order : (ids : List String) (p : Pool) → (remove_entries ids p).order ≡ p.order
unfolding remove_entries
remove_entries-order [] p = refl
remove_entries-order (id ∷ ids) p =
    remove_entries-order ids (remove_entry id p) ∙ remove_entry-order id p

remove_entries-contains :
    (ids : List String) (p : Pool) (id : String)
    → contains id (remove_entries ids p).items
      ≡ (if member id ids then false else contains id p.items)
unfolding remove_entries
remove_entries-contains [] p id = refl
remove_entries-contains (k ∷ ids) p id =
    ground (arith, remove_entries-contains ids (remove_entry k p) id, remove_entry-contains k id p)

-- For every pool that satisfies the invariant and every list of ids: after Remove the pool satisfies
-- it too, the ids of the list are not pending, and every other id is pending exactly if it was.
pub remove-IsPool :
    (ids : List String) (p : Pool)
    → IsPool p
    → IsPool (remove ids p)
      × ((id : String)
          → contains id (remove ids p).items
            ≡ (if member id ids then false else contains id p.items))
unfolding remove keep_order
remove-IsPool ids p v =
    let q = remove_entries ids p in
    (
      record {
        consistent = same_parts q (remove_entries-IsConsistent ids p v.consistent);
        distinct =
            filter_by-IsDistinct (λ id. contains id q.items) q.order
              (rw (remove_entries-order ids p) v.distinct);
        listed = λ id. ground (
          arith,
          member-filter_by (λ j. contains j q.items) id q.order,
          ap (member id) (remove_entries-order ids p),
          v.listed id,
          remove_entries-contains ids p id,
        );
      },
      remove_entries-contains ids p,
    )
  where
    same_parts : (q : Pool) → IsConsistent q → IsConsistent (keep_order q)
    same_parts q c = record {
      map = c.map;
      positive = c.positive;
      bounded = c.bounded;
      reserved = c.reserved;
    }

remove_entry-lookup :
    (k id : String) (p : Pool)
    → lookup id (remove_entry k p).items ≡ (if k == id then none else lookup id p.items)
unfolding remove_entry
remove_entry-lookup k id p = ground (arith, lookup-erase id k p.items, eq_iff k id)

remove_entries-lookup :
    (ids : List String) (p : Pool) (id : String)
    → lookup id (remove_entries ids p).items ≡ (if member id ids then none else lookup id p.items)
unfolding remove_entries
remove_entries-lookup [] p id = refl
remove_entries-lookup (k ∷ ids) p id =
    ground (arith, remove_entries-lookup ids (remove_entry k p) id, remove_entry-lookup k id p)

-- Two tests that agree on a list keep the same of it.
filter_by-agree :
    (f g : String → Bool) (xs : List String)
    → ((x : String) → member x xs ≡ true → f x ≡ g x)
    → filter_by f xs ≡ filter_by g xs
filter_by-agree f g [] h = refl
filter_by-agree f g (x ∷ xs) h =
    ground (arith, h x (rw eq_refl), filter_by-agree f g xs (λ y m. h y (ground arith)))

-- The second pool is the first without the ids: the payments that are left are what they were, in the
-- order in which they were.
pub record Loses (ids : List String) (p q : Pool) : Type 0 where
  pub items :
      (id : String) → lookup id q.items ≡ (if member id ids then none else lookup id p.items)
  pub order : q.order ≡ filter_by (λ id. not (member id ids)) p.order

pub remove-Loses : (ids : List String) (p : Pool) → IsPool p → Loses ids p (remove ids p)
unfolding remove keep_order
remove-Loses ids p v =
    let q = remove_entries ids p in
    record {
      items = remove_entries-lookup ids p;
      order =
          ap (filter_by (λ id. contains id q.items)) (remove_entries-order ids p)
          ∙ filter_by-agree (λ id. contains id q.items) (λ id. not (member id ids)) p.order
              (λ id m. ground (arith, remove_entries-contains ids p id, v.listed id));
    }

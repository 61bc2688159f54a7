-- ===== src/Mempool/Pool/Insertion.antt =====
-- internal/mempool/pool.go: TryAdd.
use pixie_block.Base.{
  String, Bool, true, false, ⊤, [], ◌∷◌, ◌++◌, Option, none, some, ◌≡◌, refl, ◌∙◌, arith, member,
  append-IsDistinct, member-append, if◌then◌else◌, eq_iff, eq_refl,
}
use pixie_block.Base.Int.{ℤ}
use pixie_block.Base.Dict.{lookup, contains, lookup-insert}
use pixie_block.Base.Result.{ok, err}
use pixie_block.Errors
use pixie_block.Errors.{Error, Result}
use pixie_block.Domain.{PaymentTransaction}
use pixie_block.Mempool.Pool.{Pool, reserved_at, run_check, add_entry, try_add}
use pixie_block.Mempool.Pool.Invariant.{IsPool, Fits, add_entry-IsConsistent}

add_entry-IsPool :
    (tx : PaymentTransaction) (p : Pool)
    → IsPool p
    → Fits tx p
    → lookup tx.id p.items ≡ none
    → IsPool (add_entry tx p)
unfolding add_entry
add_entry-IsPool tx p v f absent =
    let fresh : member tx.id p.order ≡ false = v.listed tx.id ∙ rw (absent, contains) in
    record {
      consistent = add_entry-IsConsistent tx p v.consistent f absent;
      distinct = append-IsDistinct tx.id p.order v.distinct fresh;
      listed = λ id. ground (
        arith,
        member-append id p.order (tx.id ∷ []),
        v.listed id,
        lookup-insert id tx.id tx p.items,
        eq_iff tx.id id,
      );
    }

-- What TryAdd does, by whether the id is pending and by what the check returns.
abbrev pub Adds : PaymentTransaction → Pool → Pool × Option Error → Bool → Result ⊤ → Type 0
Adds tx p r true c = r ≡ (p, some (Errors.already_in_mempool tx.id))
Adds tx p r false (err e) = r ≡ (p, some e)
Adds tx p r false (ok _) =
    (r.1 ≡ none)
    × IsPool r.0
    × (lookup tx.id r.0.items ≡ some tx)
    × (r.0.order ≡ p.order ++ tx.id ∷ [])

try_then-Adds :
    (tx : PaymentTransaction) (p : Pool) (known : Bool) (c : Result ⊤)
    → (known ≡ false → c ≡ ok tt → IsPool (add_entry tx p))
    → Adds tx p
        (if known
          then (p, some (Errors.already_in_mempool tx.id))
          else elim c [ ok _ ↦ (add_entry tx p, none) | err e ↦ (p, some e) ])
        known
        c
unfolding add_entry
try_then-Adds tx p true c h = refl
try_then-Adds tx p false (err e) h = refl
try_then-Adds tx p false (ok tt) h =
    (refl, h refl refl, ground (arith, lookup-insert tx.id tx.id tx p.items, eq_refl tx.id), refl)

not_contains : (id : String) (p : Pool) → contains id p.items ≡ false → lookup id p.items ≡ none
not_contains id p h = ground arith

-- For every pool that satisfies the invariant, every payment and every check, where the check accepts
-- the payment only if it fits (its gross amount is zero or more, and the amount reserved for the
-- payer can grow by it within an int64): if the id is pending or the check refuses, TryAdd returns
-- that error and leaves the pool as it was. Otherwise it returns no error, the pool satisfies the
-- invariant, and the payment is pending under its id and stands at the end of the order.
pub try_add-Adds :
    (tx : PaymentTransaction) (check : Option (ℤ → Result ⊤)) (p : Pool)
    → IsPool p
    → (run_check check (reserved_at tx.payer.id p.reserved) ≡ ok tt → Fits tx p)
    → Adds tx p
        (try_add tx check p)
        (contains tx.id p.items)
        (run_check check (reserved_at tx.payer.id p.reserved))
unfolding try_add
try_add-Adds tx check p v fits =
    try_then-Adds tx p (contains tx.id p.items)
      (run_check check (reserved_at tx.payer.id p.reserved))
      (λ new checked. add_entry-IsPool tx p v (fits checked) (not_contains tx.id p new))

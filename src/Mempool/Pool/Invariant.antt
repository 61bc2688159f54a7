-- ===== src/Mempool/Pool/Invariant.antt =====
-- internal/mempool/pool.go: the invariant of a pool.
use pixie_block.Base.{
  String, none, some, ◌≡◌, refl, ap, ◌∙◌, arith, member, IsDistinct, if◌then◌else◌, ◌==◌, eq_iff,
  Bool-cases, inl, inr,
}
use pixie_block.Base.Int.{ℤ, pos, pos_part, neg_part, ◌+ℤ◌, ◌-ℤ◌, ◌≤ℤ◌, int_laws}
use pixie_block.Base.Int64.{add64, wrap64_exact, IsInt64-of_bounds, max_int64}
use pixie_block.Base.Dict.{
  Dict, lookup, contains, insert, erase, IsMap, insert-IsMap, lookup-insert, lookup-erase, sum_by,
  measure_at, sum_by-insert, sum_by-erase, AllNonneg, insert-AllNonneg, sum_by_nonneg,
}
use pixie_block.Domain.{PaymentTransaction, gross_amount}
use pixie_block.Mempool.Pool.{Pool, new, reserved_at, add_entry}

-- What a pending payment takes from a payer.
abbrev pub spend : String → PaymentTransaction → ℤ
spend payer tx = if tx.payer.id == payer then gross_amount tx else pos 0

-- The exact sum of what the pending payments take from a payer.
abbrev pub pending : String → Pool → ℤ
pending payer p = sum_by (spend payer) p.items

-- The parts that the loop over the removed ids keeps.
pub record IsConsistent (p : Pool) : Type 0 where
  pub map : IsMap p.items
  pub positive : (payer : String) → AllNonneg (spend payer) p.items
  pub bounded : (payer : String) → pending payer p ≤ℤ max_int64
  pub reserved : (payer : String) → reserved_at payer p.reserved ≡ pending payer p

pub record IsPool (p : Pool) : Type 0 where
  pub consistent : IsConsistent p
  pub distinct : IsDistinct p.order
  pub listed : (id : String) → member id p.order ≡ contains id p.items

pub new-IsPool : IsPool new
unfolding new
new-IsPool = record {
  consistent = record {
    map = tt;
    positive = λ payer. tt;
    bounded = λ payer. omega arith;
    reserved = λ payer. refl;
  };
  distinct = tt;
  listed = λ id. refl;
}

pub spend_nonneg :
    (payer : String) (tx : PaymentTransaction) → pos 0 ≤ℤ gross_amount tx → pos 0 ≤ℤ spend payer tx
spend_nonneg payer tx h = ground arith

-- A new entry adds its spend, an erased one takes it back.
pub pending-insert :
    (payer : String) (tx : PaymentTransaction) (d : Dict PaymentTransaction)
    → lookup tx.id d ≡ none
    → sum_by (spend payer) (insert tx.id tx d) ≡ sum_by (spend payer) d +ℤ spend payer tx
pending-insert payer tx d absent =
    let zero : measure_at (spend payer) tx.id d ≡ pos 0 = rw (absent, measure_at) in
    let e = sum_by-insert (spend payer) tx.id tx d in
    omega (int_laws, ap pos_part e, ap neg_part e, ap pos_part zero, ap neg_part zero)

pub pending-erase :
    (payer id : String) (tx : PaymentTransaction) (d : Dict PaymentTransaction)
    → IsMap d
    → lookup id d ≡ some tx
    → sum_by (spend payer) (erase id d) ≡ sum_by (spend payer) d -ℤ spend payer tx
pending-erase payer id tx d m found =
    let here : measure_at (spend payer) id d ≡ spend payer tx = rw (found, measure_at) in
    let e = sum_by-erase (spend payer) id d m in
    omega (int_laws, ap pos_part e, ap neg_part e, ap pos_part here, ap neg_part here)

pub reserved_at-insert :
    (payer k : String) (v : ℤ) (d : Dict ℤ)
    → reserved_at payer (insert k v d) ≡ (if k == payer then v else reserved_at payer d)
reserved_at-insert payer k v d = ground (arith, lookup-insert payer k v d)

pub reserved_at-erase :
    (payer k : String) (d : Dict ℤ)
    → reserved_at payer (erase k d) ≡ (if k == payer then pos 0 else reserved_at payer d)
reserved_at-erase payer k d = ground (arith, lookup-erase payer k d)

-- What the admission of a payment has to guarantee.
pub record Fits (tx : PaymentTransaction) (p : Pool) : Type 0 where
  pub positive : pos 0 ≤ℤ gross_amount tx
  pub bounded : reserved_at tx.payer.id p.reserved +ℤ gross_amount tx ≤ℤ max_int64

module _ (tx : PaymentTransaction) (p : Pool) (v : IsConsistent p) (f : Fits tx p) where
  pending_nonneg : (payer : String) → pos 0 ≤ℤ pending payer p
  pending_nonneg payer = sum_by_nonneg (spend payer) p.items (v.positive payer)

  room : pending tx.payer.id p +ℤ gross_amount tx ≤ℤ max_int64
  room = rw (v.reserved tx.payer.id) at f.bounded

  add_exact :
      add64 (reserved_at tx.payer.id p.reserved) (gross_amount tx)
      ≡ pending tx.payer.id p +ℤ gross_amount tx
  unfolding add64
  add_exact = rw (v.reserved tx.payer.id) (
      wrap64_exact _
        (IsInt64-of_bounds _ (omega (int_laws, pending_nonneg tx.payer.id, f.positive)) room))

  pub add_entry-IsConsistent : lookup tx.id p.items ≡ none → IsConsistent (add_entry tx p)
  unfolding add_entry
  add_entry-IsConsistent absent = record {
    map = insert-IsMap tx.id tx p.items v.map;
    positive = λ payer.
        insert-AllNonneg (spend payer) tx.id tx p.items (v.positive payer)
          (spend_nonneg payer tx f.positive);
    bounded = λ payer.
        rw (pending-insert payer tx p.items absent) (elim (Bool-cases (tx.payer.id == payer)) [
          | inl e ↦ rw (e, ← (eq_iff tx.payer.id payer).0 e) room
          | inr e ↦ rw e (omega (int_laws, v.bounded payer))
        ]);
    reserved = λ payer.
        rw (reserved_at-insert, pending-insert payer tx p.items absent, add_exact)
          (elim (Bool-cases (tx.payer.id == payer)) [
            | inl e ↦ rw (e, ← (eq_iff tx.payer.id payer).0 e)
            | inr e ↦ rw e (v.reserved payer ∙ omega int_laws)
          ]);
  }

-- ===== src/Storage/Sorting.antt =====
-- internal/storage/bolt/store.go: the exchange sort of LoadBlocks.
use mathlib.Core.List.{Perm}
use mathlib.Core.List.Perm
use pixie_block.Base.{
  ℕ, zero, suc, List, [], ◌∷◌, ◌≡◌, refl, ap, arith, length, All, ◌≤◌, Bool-cases, inl, inr, ⊤,
  if◌then◌else◌, true, false, Bool,
}
use pixie_block.Base.Int.{◌≤ℤ◌, ltb_ℤ}
use pixie_block.Base.Result.{ok, err, ◌>>=◌}
use pixie_block.Errors.{Result}
use pixie_block.Domain.{Block}
use pixie_block.Storage.{Backend, sweep, sort_rounds, load_blocks, decode_blocks, blocks_bucket}

abbrev pub IsSorted : List Block → Type 0
IsSorted [] = ⊤
IsSorted (b ∷ bs) = All (λ c. b.height ≤ℤ c.height) bs × IsSorted bs

exchange-Perm :
    (less : Bool) (b c least : Block) (cs rest : List Block)
    → Perm ((if less then c else b) ∷ cs) (least ∷ rest)
    → Perm (b ∷ c ∷ cs) (least ∷ (if less then b else c) ∷ rest)
exchange-Perm true b c least cs rest h = Perm.trans (Perm.cons b h) (Perm.swap least b rest)
exchange-Perm false b c least cs rest h =
    Perm.trans (Perm.swap c b cs) (Perm.trans (Perm.cons c h) (Perm.swap least c rest))

sweep-Perm : (b : Block) (cs : List Block) → Perm (b ∷ cs) ((sweep b cs).0 ∷ (sweep b cs).1)
sweep-Perm b [] = Perm.refl (b ∷ [])
sweep-Perm b (c ∷ cs) =
    let less = ltb_ℤ c.height b.height in
    exchange-Perm less b c _ cs _ (sweep-Perm (if less then c else b) cs)

length-sweep : (b : Block) (cs : List Block) → length (sweep b cs).1 ≡ length cs
length-sweep b [] = refl
length-sweep b (c ∷ cs) = ap suc (length-sweep (if ltb_ℤ c.height b.height then c else b) cs)

-- The block that is found is no higher than the ones left behind.
sweep-least :
    (b : Block) (cs : List Block)
    → ((sweep b cs).0.height ≤ℤ b.height)
      × All (λ c. (sweep b cs).0.height ≤ℤ c.height) (sweep b cs).1
sweep-least b [] = (omega arith, tt)
sweep-least b (c ∷ cs) =
    let less = ltb_ℤ c.height b.height in
    let (low, all) = sweep-least (if less then c else b) cs in (ground arith, (ground arith, all))

sweep-All :
    (P : Block → Type 0) (b : Block) (cs : List Block)
    → P b
    → All P cs
    → P (sweep b cs).0 × All P (sweep b cs).1
sweep-All P b [] h k = (h, tt)
sweep-All P b (c ∷ cs) h k = elim (Bool-cases (ltb_ℤ c.height b.height)) [
  | inl less ↦ rw less (let (x, xs) = sweep-All P c cs k.0 k.1 in (x, (h, xs)))
  | inr more ↦ rw more (let (x, xs) = sweep-All P b cs h k.1 in (x, (k.0, xs)))
]

sort_rounds-All :
    (P : Block → Type 0) (n : ℕ) (bs : List Block) → All P bs → All P (sort_rounds n bs)
sort_rounds-All P zero bs h = h
sort_rounds-All P (suc n) [] h = tt
sort_rounds-All P (suc n) (b ∷ bs) h =
    let (x, xs) = sweep-All P b bs h.0 h.1 in (x, sort_rounds-All P n _ xs)

sort_rounds-IsSorted : (n : ℕ) (bs : List Block) → length bs ≤ n → IsSorted (sort_rounds n bs)
sort_rounds-IsSorted zero [] h = tt
sort_rounds-IsSorted zero (b ∷ bs) h = absurd (omega arith)
sort_rounds-IsSorted (suc n) [] h = tt
sort_rounds-IsSorted (suc n) (b ∷ bs) h = (
  sort_rounds-All _ n _ (sweep-least b bs).1,
  sort_rounds-IsSorted n _ (omega (arith, length-sweep b bs)),
)

sort_rounds-Perm : (n : ℕ) (bs : List Block) → Perm bs (sort_rounds n bs)
sort_rounds-Perm zero bs = Perm.refl bs
sort_rounds-Perm (suc n) [] = Perm.refl []
sort_rounds-Perm (suc n) (b ∷ bs) =
    Perm.trans (sweep-Perm b bs) (Perm.cons _ (sort_rounds-Perm n (sweep b bs).1))

-- What LoadBlocks returns, by what decoding the entries of the bucket yields.
abbrev pub Loads : Result (List Block) → Result (List Block) → Type 0
Loads (err e) r = r ≡ err e
Loads (ok found) r = (bs : List Block) × (r ≡ ok bs) × Perm found bs × IsSorted bs

sorted-Loads :
    (found : Result (List Block))
    → Loads found (do blocks ← found; ok (sort_rounds (length blocks) blocks))
sorted-Loads (err e) = refl
sorted-Loads (ok bs) = (
  sort_rounds (length bs) bs,
  refl,
  sort_rounds-Perm (length bs) bs,
  sort_rounds-IsSorted (length bs) bs (omega arith),
)

-- For every database: if an entry of the block bucket does not decode, LoadBlocks returns that error.
-- Otherwise it returns the decoded blocks, each as often as it is stored, in the order of their
-- heights.
pub load_blocks-Loads :
    {DB : Type 0} (back : Backend DB) (db : DB)
    → Loads (decode_blocks back (back.for_each blocks_bucket db)) (load_blocks back db)
unfolding load_blocks
load_blocks-Loads back db = sorted-Loads (decode_blocks back (back.for_each blocks_bucket db))

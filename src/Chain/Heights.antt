-- ===== src/Chain/Heights.antt =====
-- internal/chain/blockchain.go: blocks by height.
use pixie_block.Base.{
  ℕ, zero, suc, List, [], ◌∷◌, ◌++◌, Option, none, some, ◌≡◌, refl, ap, ◌∙◌, arith, length, drop,
  get_elem?, filter_by, not, ⊤, ◌+◌, ◌-◌, ◌<◌, ◌≤◌, ◌^◌,
}
use pixie_block.Base.Int.{pos, ltb_ℤ, ◌+ℤ◌}
use pixie_block.Base.Int64.{add64, wrap64}
use pixie_block.Errors.{Error}
use pixie_block.Domain.{Block}
use pixie_block.Crypto.{Primitives}
use pixie_block.Base.Result.{ok}
use pixie_block.Ledger.State.{State}
use pixie_block.Ledger.Blocks.{validate_block}
use pixie_block.Ledger.Blocks.Header.{validate_block-IsLinked}
use pixie_block.Storage.{Backend}
use pixie_block.Chain.{
  Blockchain, last_block, find_height, get_block, get_blocks_from, append_block, extend,
  index_block, height,
}
use pixie_block.Chain.Replays.{Appends, append_block-Appends, appended, refused}

-- The heights are n, n + 1 and so on.
abbrev pub HasHeights : ℕ → List Block → Type 0
HasHeights n [] = ⊤
HasHeights n (b ∷ bs) = (b.height ≡ pos n) × HasHeights (suc n) bs

find_height-index :
    (n k m : ℕ) (bs : List Block)
    → HasHeights n bs
    → m ≡ n + k
    → find_height (pos m) bs ≡ get_elem? bs k
find_height-index n k m [] h e = refl
find_height-index n zero m (b ∷ bs) h e = let at = h.0 in ground arith
find_height-index n (suc k) m (b ∷ bs) h e =
    let at = h.0 in let rest = find_height-index (suc n) k m bs h.1 (omega arith) in ground arith

keep_all :
    (n k : ℕ) (bs : List Block)
    → HasHeights n bs
    → k ≤ n
    → filter_by (λ b. not (ltb_ℤ b.height (pos k))) bs ≡ bs
keep_all n k [] h le = refl
keep_all n k (b ∷ bs) h le =
    let e = h.0 in let rest = keep_all (suc n) k bs h.1 (omega arith) in ground arith

filter_height-drop :
    (n k m : ℕ) (bs : List Block)
    → HasHeights n bs
    → m ≡ n + k
    → filter_by (λ b. not (ltb_ℤ b.height (pos m))) bs ≡ drop k bs
filter_height-drop n zero m bs h e = keep_all n m bs h (omega arith)
filter_height-drop n (suc k) m [] h e = refl
filter_height-drop n (suc k) m (b ∷ bs) h e =
    let at = h.0 in let rest = filter_height-drop (suc n) k m bs h.1 (omega arith) in ground arith

-- For every chain whose blocks have the heights 0, 1, 2 and so on, and every k: GetBlock of height k
-- yields the block at index k, or none past the end, and GetBlocksFrom of height k yields all blocks
-- but the first k, in order.
pub get_block-index :
    {DB : Type 0} (bc : Blockchain DB) (k : ℕ)
    → HasHeights 0 bc.blocks
    → (get_block (pos k) bc ≡ get_elem? bc.blocks k)
      × (get_blocks_from (pos k) bc ≡ drop k bc.blocks)
unfolding get_block get_blocks_from
get_block-index bc k h = (
  find_height-index 0 k k bc.blocks h (omega arith),
  filter_height-drop 0 k k bc.blocks h (omega arith),
)

pub last-height :
    (n : ℕ) (l : Block) (bs : List Block)
    → HasHeights n bs
    → last_block bs ≡ some l
    → l.height ≡ pos (n + length bs - 1)
last-height n l [] h e = absurd (ground arith)
last-height n l (b ∷ []) h e = ground arith
last-height n l (b ∷ c ∷ bs) h e = last-height (suc n) l (c ∷ bs) h.1 e ∙ ap pos (omega arith)

HasHeights-append :
    (n : ℕ) (b : Block) (bs : List Block)
    → HasHeights n bs
    → b.height ≡ pos (n + length bs)
    → HasHeights n (bs ++ b ∷ [])
HasHeights-append n b [] h e = (e ∙ ap pos (omega arith), tt)
HasHeights-append n b (c ∷ bs) h e =
    (h.0, HasHeights-append (suc n) b bs h.1 (e ∙ ap pos (omega arith)))

pub next_height : (n : ℕ) → suc n < 2 ^ 63 → add64 (pos n) (pos 1) ≡ pos (suc n)
unfolding add64 wrap64 ◌+ℤ◌
next_height n h = ground arith

-- What AppendBlock keeps of the heights, by what it returns.
abbrev pub Extends : {DB : Type 0} → Block → Blockchain DB → Blockchain DB × Option Error → Type 0
Extends block bc (after, some e) = after.blocks ≡ bc.blocks
Extends block bc (after, none) =
    (after.blocks ≡ bc.blocks ++ block ∷ [])
    × (height after ≡ pos (length bc.blocks))
    × (get_block (pos (length bc.blocks)) after ≡ some block)

get_elem?-append : (b : Block) (bs : List Block) → get_elem? (bs ++ b ∷ []) (length bs) ≡ some b
get_elem?-append b [] = refl
get_elem?-append b (c ∷ bs) = get_elem?-append b bs

pub last_block-append : (b : Block) (bs : List Block) → last_block (bs ++ b ∷ []) ≡ some b
last_block-append b [] = refl
last_block-append b (c ∷ []) = refl
last_block-append b (c ∷ d ∷ bs) = last_block-append b (d ∷ bs)

pub last_block-length : (l : Block) (bs : List Block) → last_block bs ≡ some l → 1 ≤ length bs
last_block-length l [] h = absurd (ground arith)
last_block-length l (b ∷ bs) h = omega arith

-- The height that an accepted block has.
accepted-height :
    (p : Primitives) (block prev : Block) (s next : State) (bs : List Block)
    → HasHeights 0 bs
    → length bs < 2 ^ 63
    → last_block bs ≡ some prev
    → validate_block p block prev s ≡ ok next
    → block.height ≡ pos (length bs)
accepted-height p block prev s next bs h short l v =
    let at : prev.height ≡ pos (length bs - 1) = last-height 0 prev bs h l ∙ ap pos (omega arith) in
    let positive = last_block-length prev bs l in
    (validate_block-IsLinked p block prev s next v).0.height
    ∙ ap (λ z. add64 z (pos 1)) at
    ∙ next_height (length bs - 1) (omega arith)
    ∙ ap pos (omega arith)

Appends-Extends :
    {DB : Type 0} (p : Primitives) (block : Block) (bc : Blockchain DB)
    (r : Blockchain DB × Option Error)
    → HasHeights 0 bc.blocks
    → length bc.blocks < 2 ^ 63
    → Appends p block bc r
    → HasHeights 0 r.0.blocks × Extends block bc r
unfolding extend index_block height get_block
Appends-Extends p block bc r h short (refused e store) = (h, refl)
Appends-Extends p block bc r h short (appended prev next written l v) =
    let bs = bc.blocks in
    let at = accepted-height p block prev bc.state next bs h short l v in
    let heights = HasHeights-append 0 block bs h (at ∙ ap pos (omega arith)) in
    (
      heights,
      (
        refl,
        ground (arith, last_block-append block bs, at),
        find_height-index 0 (length bs) (length bs) (bs ++ block ∷ []) heights (omega arith)
            ∙ get_elem?-append block bs,
      ),
    )

-- For every chain of fewer than 2 ^ 63 blocks whose heights are 0, 1, 2 and so on, and every block:
-- after AppendBlock the heights still are. If it returned no error, the block is the new last one,
-- the height of the chain is the number of blocks before it, and GetBlock of that height yields it;
-- otherwise the blocks are those from before.
pub append_block-Extends :
    {DB : Type 0} (p : Primitives) (back : Backend DB) (block : Block) (bc : Blockchain DB)
    → HasHeights 0 bc.blocks
    → length bc.blocks < 2 ^ 63
    → HasHeights 0 (append_block p back block bc).0.blocks
      × Extends block bc (append_block p back block bc)
append_block-Extends p back block bc h short =
    Appends-Extends p block bc _ h short (append_block-Appends p back block bc)

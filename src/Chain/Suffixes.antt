-- ===== src/Chain/Suffixes.antt =====
-- internal/chain/blockchain.go: a chain that another one extends.
use pixie_block.Base.{
  ℕ, suc, List, [], ◌∷◌, ◌++◌, Option, none, some, ◌≡◌, refl, sym, ap, ◌∙◌, arith, length, drop,
  inl, inr, ◌+◌, ◌-◌, ◌≤◌,
}
use mathlib.Core.List.{append-nil}
use pixie_block.Base.Int.{pos}
use pixie_block.Base.Result.{ok, Result-cases}
use pixie_block.Errors.{Error}
use pixie_block.Domain.{Block}
use pixie_block.Crypto.{Primitives}
use pixie_block.Ledger.State.{State}
use pixie_block.Ledger.Blocks.{validate_block}
use pixie_block.Storage.{Backend, save_block_and_state}
use pixie_block.Chain.{Blockchain, append_block, extend, index_block, last_block, height}
use pixie_block.Chain.Restart.{replay, replay_chain}
use pixie_block.Chain.Replays.{
  replay_cons-eq, last_block-cons, Appends, append_block-Appends, appended, refused,
}
use pixie_block.Chain.Heights.{HasHeights, last-height}

-- A block that is accepted and saved is the new last one.
pub append_block-accepted :
    {DB : Type 0} (p : Primitives) (back : Backend DB) (block prev : Block) (next : State)
    (bc : Blockchain DB)
    → last_block bc.blocks ≡ some prev
    → validate_block p block prev bc.state ≡ ok next
    → (save_block_and_state back block next bc.store).1 ≡ none
    → let r = append_block p back block bc in
      (r.1 ≡ none) × (r.0.blocks ≡ bc.blocks ++ block ∷ []) × (r.0.state ≡ next)
unfolding append_block extend index_block
append_block-accepted p back block prev next bc l v saved = ground arith

-- The blocks after the first ones lead from the state after these to the last state.
pub replay-suffix :
    (p : Primitives) (s mid final : State) (first l : Block) (bs rest : List Block)
    → replay p s first bs ≡ ok mid
    → last_block (first ∷ bs) ≡ some l
    → replay p s first (bs ++ rest) ≡ ok final
    → replay p mid l rest ≡ ok final
unfolding replay
replay-suffix p s mid final first l [] rest h e r = cc
replay-suffix p s mid final first l (c ∷ bs) rest h e r =
    elim (Result-cases (validate_block p c first s)) [
      | inr (x, f) ↦ absurd (ground arith)
      | inl (t, f) ↦
          replay-suffix p t mid final c l bs rest (sym (replay_cons-eq p s t first c bs f) ∙ h) e
            (sym (replay_cons-eq p s t first c (bs ++ rest) f) ∙ r)
    ]

pub HasHeights-at :
    (n : ℕ) (xs ys : List Block) (y : Block)
    → HasHeights n (xs ++ y ∷ ys)
    → y.height ≡ pos (n + length xs)
HasHeights-at n [] ys y h = h.0 ∙ ap pos (omega arith)
HasHeights-at n (x ∷ xs) ys y h = HasHeights-at (suc n) xs ys y h.1 ∙ ap pos (omega arith)

pub HasHeights-prefix : (n : ℕ) (xs ys : List Block) → HasHeights n (xs ++ ys) → HasHeights n xs
HasHeights-prefix n [] ys h = tt
HasHeights-prefix n (x ∷ xs) ys h = (h.0, HasHeights-prefix (suc n) xs ys h.1)

pub height-length :
    {DB : Type 0} (bc : Blockchain DB) (l : Block)
    → HasHeights 0 bc.blocks
    → last_block bc.blocks ≡ some l
    → height bc ≡ pos (length bc.blocks - 1)
unfolding height
height-length bc l h e = rw (e, height) (last-height 0 l bc.blocks h e ∙ ap pos (omega arith))

-- The same for chains from one start.
pub replay_chain-suffix :
    (p : Primitives) (start mid final : State) (bs rest : List Block)
    → replay_chain p (ok start) bs ≡ ok mid
    → replay_chain p (ok start) (bs ++ rest) ≡ ok final
    → (l : Block) × (last_block bs ≡ some l) × (replay p mid l rest ≡ ok final)
replay_chain-suffix p start mid final [] rest h r = absurd (ground arith)
replay_chain-suffix p start mid final (first ∷ bs) rest h r =
    let (l, e) = last_block-cons first bs in
    (l, e, replay-suffix p start mid final first l bs rest h e r)

pub drop-append : {A : Type 0} (xs ys : List A) → drop (length xs) (xs ++ ys) ≡ ys
drop-append [] ys = refl
drop-append (x ∷ xs) ys = drop-append xs ys

pub last_block-nonempty : (bs : List Block) → 1 ≤ length bs → (l : Block) × (last_block bs ≡ some l)
last_block-nonempty [] h = absurd (omega arith)
last_block-nonempty (b ∷ bs) h = last_block-cons b bs

Appends-Grows :
    {DB : Type 0} (p : Primitives) (block : Block) (bc : Blockchain DB)
    (r : Blockchain DB × Option Error)
    → Appends p block bc r
    → (more : List Block) × (r.0.blocks ≡ bc.blocks ++ more)
unfolding extend index_block
Appends-Grows p block bc r (appended prev next written l v) = (block ∷ [], refl)
Appends-Grows p block bc r (refused e store) = ([], sym (append-nil bc.blocks))

-- AppendBlock only puts blocks behind those that are there.
pub append_block-Grows :
    {DB : Type 0} (p : Primitives) (back : Backend DB) (block : Block) (bc : Blockchain DB)
    → (more : List Block) × ((append_block p back block bc).0.blocks ≡ bc.blocks ++ more)
append_block-Grows p back block bc =
    Appends-Grows p block bc _ (append_block-Appends p back block bc)

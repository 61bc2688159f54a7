-- ===== src/Chain/Replays.antt =====
-- internal/chain/blockchain.go: AppendBlock, and the replay of the blocks.
use pixie_block.Base.{
  List, [], ◌∷◌, ◌++◌, Option, none, some, ◌≡◌, refl, sym, ◌∙◌, arith, Option-cases, inl, inr,
}
use pixie_block.Base.Result.{ok, Result-cases}
use pixie_block.Errors
use pixie_block.Errors.{Error, Result}
use pixie_block.Domain.{Block}
use pixie_block.Crypto.{Primitives}
use pixie_block.Ledger.State.{State}
use pixie_block.Ledger.Blocks.{validate_block}
use pixie_block.Storage.{Backend, save_block_and_state}
use pixie_block.Chain.{Blockchain, last_block, append_block, extend, index_block}
use pixie_block.Chain.Restart.{replay, replay_chain}

pub last_block-cons : (b : Block) (bs : List Block) → (l : Block) × (last_block (b ∷ bs) ≡ some l)
last_block-cons b [] = (b, refl)
last_block-cons b (c ∷ bs) = last_block-cons c bs

pub replay_cons-eq :
    (p : Primitives) (s next : State) (prev b : Block) (bs : List Block)
    → validate_block p b prev s ≡ ok next
    → replay p s prev (b ∷ bs) ≡ replay p next b bs
unfolding replay
replay_cons-eq p s next prev b bs h = rw h

-- One more block at the end is validated on the state that the replay of the others leaves.
replay-append :
    (p : Primitives) (s mid next : State) (first l b : Block) (bs : List Block)
    → replay p s first bs ≡ ok mid
    → last_block (first ∷ bs) ≡ some l
    → validate_block p b l mid ≡ ok next
    → replay p s first (bs ++ b ∷ []) ≡ ok next
unfolding replay
replay-append p s mid next first l b [] h e v = ground arith
replay-append p s mid next first l b (c ∷ bs) h e v =
    elim (Result-cases (validate_block p c first s)) [
      | inr (x, f) ↦ absurd (ground arith)
      | inl (t, f) ↦
          rw f
            (replay-append p t mid next c l b bs (sym (replay_cons-eq p s t first c bs f) ∙ h) e v)
    ]

-- The first block and the state before the others lead to the state that the chain keeps.
abbrev pub Replays : {DB : Type 0} → Primitives → State → Blockchain DB → Type 0
Replays p start bc = replay_chain p (ok start) bc.blocks ≡ ok bc.state

-- What AppendBlock returns: the chain with the block and the state after it, or an error and all as
-- it was but for what the failed save made of the store.
pub data Appends {DB : Type 0} (p : Primitives) (block : Block) (bc : Blockchain DB)
    : Blockchain DB × Option Error → Type 0 where
  appended :
      (prev : Block) (next : State) (written : DB)
      → last_block bc.blocks ≡ some prev
      → validate_block p block prev bc.state ≡ ok next
      → Appends p block bc (extend p block next written bc, none)
  refused : (e : Error) (store : DB) → Appends p block bc (record bc { store = store }, some e)

save_then-Appends :
    {DB : Type 0} (p : Primitives) (block prev : Block) (next : State) (bc : Blockchain DB)
    (saved : DB × Option Error)
    → last_block bc.blocks ≡ some prev
    → validate_block p block prev bc.state ≡ ok next
    → Appends p block bc (
        let (written, failure) = saved in
        elim failure [
          | some e ↦ (record bc { store = written }, some e)
          | none ↦ (extend p block next written bc, none)
        ])
save_then-Appends p block prev next bc (written, none) l v = appended prev next written l v
save_then-Appends p block prev next bc (written, some e) l v = refused e written

pub append_block-Appends :
    {DB : Type 0} (p : Primitives) (back : Backend DB) (block : Block) (bc : Blockchain DB)
    → Appends p block bc (append_block p back block bc)
unfolding append_block
append_block-Appends p back block bc = elim (Option-cases (last_block bc.blocks)) [
  | inl l ↦ rw (l, append_block) (refused Errors.index_out_of_range bc.store)
  | inr (prev, l) ↦ elim (Result-cases (validate_block p block prev bc.state)) [
    | inr (e, v) ↦ rw (l, v, append_block) (refused e bc.store)
    | inl (next, v) ↦
        rw (l, v, append_block)
          (save_then-Appends p block prev next bc (save_block_and_state back block next bc.store) l
            v)
  ]
]

append-Replays :
    (p : Primitives) (start mid next : State) (prev b : Block) (bs : List Block)
    → replay_chain p (ok start) bs ≡ ok mid
    → last_block bs ≡ some prev
    → validate_block p b prev mid ≡ ok next
    → replay_chain p (ok start) (bs ++ b ∷ []) ≡ ok next
append-Replays p start mid next prev b [] h l v = absurd (ground arith)
append-Replays p start mid next prev b (first ∷ bs) h l v =
    replay-append p start mid next first prev b bs h l v

-- What AppendBlock keeps, by the error that it returns.
abbrev pub KeepsReplay :
    {DB : Type 0}
    → Primitives
    → State
    → Block
    → Blockchain DB
    → Blockchain DB × Option Error
    → Type 0
KeepsReplay p start block bc (after, none) =
    Replays p start after × (after.blocks ≡ bc.blocks ++ block ∷ [])
KeepsReplay p start block bc (after, some e) =
    (after ≡ record bc { store = after.store }) × Replays p start after

Appends-KeepsReplay :
    {DB : Type 0} (p : Primitives) (start : State) (block : Block) (bc : Blockchain DB)
    (r : Blockchain DB × Option Error)
    → Replays p start bc
    → Appends p block bc r
    → KeepsReplay p start block bc r
unfolding extend index_block
Appends-KeepsReplay p start block bc r h (appended prev next written l v) =
    (append-Replays p start bc.state next prev block bc.blocks h l v, refl)
Appends-KeepsReplay p start block bc r h (refused e store) = (refl, h)

-- For every chain whose state is what validateChain's loop computes from a start state and the
-- blocks, and every block: if AppendBlock returns no error, the block is the new last one and the
-- state is again what that loop computes from the start state and the blocks, so that the loop
-- accepts the chain with the block. If it returns an error, nothing but the store has changed.
pub append_block-KeepsReplay :
    {DB : Type 0} (p : Primitives) (back : Backend DB) (start : State) (block : Block)
    (bc : Blockchain DB)
    → Replays p start bc
    → KeepsReplay p start block bc (append_block p back block bc)
append_block-KeepsReplay p back start block bc h =
    Appends-KeepsReplay p start block bc _ h (append_block-Appends p back block bc)

-- ===== src/Network/Drops.antt =====
-- internal/p2p/node.go: which messages end a connection.
use pixie_block.Base.{
  Bool, true, false, List, Option, none, some, ◌==◌, ◌≡◌, ◌↔◌, refl, subst, arith, Bool-cases,
  Option-cases, inl, inr,
}
use pixie_block.Base.Int.{pos, ltb_ℤ}
use pixie_block.Base.Int64.{add64}
use pixie_block.Base.Result.{ok, err, Result-cases}
use pixie_block.Errors
use pixie_block.Errors.{Error, Result}
use pixie_block.Domain.{Block}
use pixie_block.Bridge.{Announcement, many}
use pixie_block.Network.{
  Handshake, GetBlocks, Message, handshake, new_transaction, new_account_create, new_account_close,
  new_block, get_blocks, blocks_response, other, Handler, is_need_sync, reply, request_sync,
  dispatch,
}

module _ {H C W : Type 0} (handler : Handler H) (encode : Message → C → W → W × Option Error)
    (c : C) (inbound : Bool) (node : H) (w : W) where
  -- The messages that end the connection, each with the error: a handshake or a request for blocks
  -- that does not decode, a handshake of another chain, a request that the handler refuses, and an
  -- answer that cannot be written.
  pub data Drops : Message → Error → Type 0 where
    bad_handshake : (e : Error) → Drops (handshake (err e)) e
    other_chain :
        (hs : Handshake)
        → (hs.chain_id == handler.chain_id node) ≡ false
        → Drops (handshake (ok hs)) Errors.chain_id_mismatch
    no_reply :
        (hs : Handshake) (e : Error)
        → (hs.chain_id == handler.chain_id node) ≡ true
        → (reply handler encode inbound c node w).1 ≡ some e
        → Drops (handshake (ok hs)) e
    no_catch_up :
        (hs : Handshake) (e : Error)
        → (hs.chain_id == handler.chain_id node) ≡ true
        → (reply handler encode inbound c node w).1 ≡ none
        → ltb_ℤ (handler.current_height node) hs.height ≡ true
        → (request_sync handler encode c
            (add64 (handler.current_height node) (pos 1))
            (reply handler encode inbound c node w).0).1
          ≡ some e
        → Drops (handshake (ok hs)) e
    no_sync :
        (payload : Result Announcement) (x e : Error)
        → (handler.on_new_block payload node).1 ≡ some x
        → is_need_sync x ≡ true
        → (request_sync handler encode c
            (add64 (handler.current_height (handler.on_new_block payload node).0) (pos 1))
            w).1
          ≡ some e
        → Drops (new_block payload) e
    bad_request : (e : Error) → Drops (get_blocks (err e)) e
    refused_request :
        (req : GetBlocks) (e : Error)
        → handler.on_get_blocks req.from_height node ≡ err e
        → Drops (get_blocks (ok req)) e
    no_response :
        (req : GetBlocks) (blocks : List Block) (e : Error)
        → handler.on_get_blocks req.from_height node ≡ ok blocks
        → (encode (blocks_response (ok (many blocks))) c w).1 ≡ some e
        → Drops (get_blocks (ok req)) e

  Drops-handshake :
      (hs : Handshake) (e : Error)
      → (dispatch handler encode (handshake (ok hs)) c inbound node w).1 ≡ some e
      → Drops (handshake (ok hs)) e
  unfolding dispatch
  Drops-handshake hs e h = elim (Bool-cases (hs.chain_id == handler.chain_id node)) [
    | inr no_match ↦ subst (Drops (handshake (ok hs))) (ground arith) (other_chain hs no_match)
    | inl same ↦ elim (Option-cases (reply handler encode inbound c node w).1) [
      | inr (x, failed) ↦ no_reply hs e same (ground arith)
      | inl sent ↦ elim (Bool-cases (ltb_ℤ (handler.current_height node) hs.height)) [
        | inl ahead ↦ no_catch_up hs e same sent ahead (ground arith)
        | inr behind ↦ absurd (ground arith)
      ]
    ]
  ]

  Drops-new_block :
      (payload : Result Announcement) (e : Error)
      → (dispatch handler encode (new_block payload) c inbound node w).1 ≡ some e
      → Drops (new_block payload) e
  unfolding dispatch
  Drops-new_block payload e h = elim (Option-cases (handler.on_new_block payload node).1) [
    | inl fine ↦ absurd (ground arith)
    | inr (x, failed) ↦ elim (Bool-cases (is_need_sync x)) [
      | inr passed ↦ absurd (ground arith)
      | inl gap ↦ no_sync payload x e failed gap (ground arith)
    ]
  ]

  Drops-get_blocks :
      (req : GetBlocks) (e : Error)
      → (dispatch handler encode (get_blocks (ok req)) c inbound node w).1 ≡ some e
      → Drops (get_blocks (ok req)) e
  unfolding dispatch
  Drops-get_blocks req e h = elim (Result-cases (handler.on_get_blocks req.from_height node)) [
    | inl (blocks, found) ↦ no_response req blocks e found (ground arith)
    | inr (x, failed) ↦ refused_request req e (ground arith)
  ]

  dispatch-Drops :
      (msg : Message) (e : Error)
      → (dispatch handler encode msg c inbound node w).1 ≡ some e
      → Drops msg e
  unfolding dispatch
  dispatch-Drops (handshake (err x)) e h =
      subst (Drops (handshake (err x))) (ground arith) (bad_handshake x)
  dispatch-Drops (handshake (ok hs)) e h = Drops-handshake hs e h
  dispatch-Drops (new_transaction payload) e h = absurd (ground arith)
  dispatch-Drops (new_account_create payload) e h = absurd (ground arith)
  dispatch-Drops (new_account_close payload) e h = absurd (ground arith)
  dispatch-Drops (new_block payload) e h = Drops-new_block payload e h
  dispatch-Drops (get_blocks (err x)) e h =
      subst (Drops (get_blocks (err x))) (ground arith) (bad_request x)
  dispatch-Drops (get_blocks (ok req)) e h = Drops-get_blocks req e h
  dispatch-Drops (blocks_response payload) e h = absurd (ground arith)
  dispatch-Drops (other kind) e h = absurd (ground arith)

  Drops-dispatch :
      (msg : Message) (e : Error)
      → Drops msg e
      → (dispatch handler encode msg c inbound node w).1 ≡ some e
  unfolding dispatch
  Drops-dispatch msg e (bad_handshake x) = refl
  Drops-dispatch msg e (other_chain hs n) = ground arith
  Drops-dispatch msg e (no_reply hs x same failed) = ground arith
  Drops-dispatch msg e (no_catch_up hs x same sent ahead failed) = ground arith
  Drops-dispatch msg e (no_sync payload x y failed gap unsent) = ground arith
  Drops-dispatch msg e (bad_request x) = refl
  Drops-dispatch msg e (refused_request req x failed) = ground arith
  Drops-dispatch msg e (no_response req blocks x found unsent) = ground arith

  -- For every node, message, connection and writer: dispatch returns an error, which ends the
  -- connection, in the cases of `Drops` and in no others, with the error given there. So a payment, an
  -- account request, blocks sent as a response, and a message of an unknown type never end it, and a
  -- block announced does only if it is ahead of the chain and the request for the blocks before it
  -- cannot be written.
  pub dispatch_error-Drops :
      (msg : Message) (e : Error)
      → ((dispatch handler encode msg c inbound node w).1 ≡ some e) ↔ Drops msg e
  dispatch_error-Drops msg e = (dispatch-Drops msg e, Drops-dispatch msg e)

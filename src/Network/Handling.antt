-- ===== src/Network/Handling.antt =====
-- internal/p2p/node.go: what a message makes of the node that handles it.
use pixie_block.Base.{Bool, Option, ◌≡◌, refl, arith, ◌==◌, Bool-cases, Option-cases, inl, inr}
use pixie_block.Base.Int.{ltb_ℤ}
use pixie_block.Base.Result.{ok, err, Result-cases}
use pixie_block.Errors.{Error}
use pixie_block.Network.{
  Handshake, Handler, is_need_sync, reply, Message, handshake, new_transaction, new_account_create,
  new_account_close, new_block, get_blocks, blocks_response, other, dispatch,
}

-- The state that the handler's part of a message leaves; nothing else of dispatch changes it.
abbrev pub handled : {H : Type 0} → Handler H → Message → H → H
handled handler (new_transaction payload) node = (handler.on_new_transaction payload node).0
handled handler (new_account_create payload) node = (handler.on_new_account_create payload node).0
handled handler (new_account_close payload) node = (handler.on_new_account_close payload node).0
handled handler (new_block payload) node = (handler.on_new_block payload node).0
handled handler (blocks_response payload) node = (handler.on_new_block payload node).0
handled handler (handshake payload) node = node
handled handler (get_blocks payload) node = node
handled handler (other kind) node = node

module _ {H C W : Type 0} (handler : Handler H) (encode : Message → C → W → W × Option Error)
    (c : C) (inbound : Bool) (node : H) (w : W) where
  handshake-handled :
      (hs : Handshake) → (dispatch handler encode (handshake (ok hs)) c inbound node w).0.0 ≡ node
  unfolding dispatch
  handshake-handled hs = elim (Bool-cases (hs.chain_id == handler.chain_id node)) [
    | inr different ↦ ground arith
    | inl same ↦ elim (Option-cases (reply handler encode inbound c node w).1) [
      | inr (x, failed) ↦ ground arith
      | inl sent ↦ elim (Bool-cases (ltb_ℤ (handler.current_height node) hs.height)) [
        | inl ahead ↦ ground arith
        | inr behind ↦ ground arith
      ]
    ]
  ]

  pub dispatch-handled :
      (msg : Message)
      → (dispatch handler encode msg c inbound node w).0.0 ≡ handled handler msg node
  unfolding dispatch
  dispatch-handled (handshake (err e)) = refl
  dispatch-handled (handshake (ok hs)) = handshake-handled hs
  dispatch-handled (new_transaction payload) = refl
  dispatch-handled (new_account_create payload) = refl
  dispatch-handled (new_account_close payload) = refl
  dispatch-handled (new_block payload) = elim (Option-cases (handler.on_new_block payload node).1) [
    | inl fine ↦ ground arith
    | inr (x, failed) ↦ elim (Bool-cases (is_need_sync x)) [
      | inl gap ↦ ground arith
      | inr passed ↦ ground arith
    ]
  ]
  dispatch-handled (get_blocks (err e)) = refl
  dispatch-handled (get_blocks (ok req)) =
      elim (Result-cases (handler.on_get_blocks req.from_height node)) [
        | inl (blocks, found) ↦ ground arith
        | inr (x, failed) ↦ ground arith
      ]
  dispatch-handled (blocks_response payload) = refl
  dispatch-handled (other kind) = refl

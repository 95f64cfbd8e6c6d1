-- ===== src/Maker/Replies.antt =====
-- Every request is answered once.
use fatcrab_trading.Base.{ℕ, suc, ⊤, List, [], ◌∷◌, ◌≡◌, arith}
use fatcrab_trading.Action.{Outcome, ret, raise, panic}
use fatcrab_trading.Maker.{
  World, post_new_order, get_order_details, get_state, get_peer_pubkey, get_peer_btc_txid,
  query_offers, query_peer_msg,
}
use fatcrab_trading.Maker.Buy
use fatcrab_trading.Maker.Sell
use fatcrab_trading.Maker.Notifications.{register_notif_tx, unregister_notif_tx}
use fatcrab_trading.Maker.Run.{handle_request, shut_down}
use fatcrab_trading.Maker.Types.{MakerEffect, reply, MakerEnv, FatCrabMakerRequest}

abbrev pub replies : List MakerEffect → ℕ
replies [] = 0
replies (reply r ∷ out) = suc (replies out)
replies (_ ∷ out) = replies out

-- From a log with `n` replies.
abbrev pub AnswersOnce : ℕ → Outcome World ⊤ → Type 0
AnswersOnce n (ret x c) = replies c.out ≡ suc n
AnswersOnce n (raise e c) = ⊥
AnswersOnce n (panic c) = ⊤

module _ (env : MakerEnv) where
  -- Every request of a maker, in every state, is answered by exactly one reply, unless its handler
  -- panics: no error leaves a handler without an answer, and none is answered twice.
  pub handle_request-AnswersOnce :
      (r : FatCrabMakerRequest) (c : World) → AnswersOnce (replies c.out) (handle_request env r c)
  unfolding handle_request post_new_order get_order_details get_state get_peer_pubkey
      get_peer_btc_txid query_offers query_peer_msg shut_down register_notif_tx unregister_notif_tx
      Buy.cancel_order Sell.cancel_order Buy.trade_response Sell.trade_response
      Buy.release_notify_peer Buy.pay_and_notify Sell.notify_peer Buy.check_btc_tx_confirmation
      Sell.check_btc_tx_confirmation Buy.trade_complete Sell.trade_complete
  handle_request-AnswersOnce FatCrabMakerRequest.cancel_order c = ground arith
  handle_request-AnswersOnce _ c = ground arith

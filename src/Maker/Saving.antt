-- ===== src/Maker/Saving.antt =====
-- A maker's data are queued for saving after every event.
use fatcrab_trading.Base.{Bool, true, Bool, true, ◌≡◌, arith, inl, inr}
use fatcrab_trading.Action.{final}
use fatcrab_trading.TradeRsp.{FatCrabTradeRspType}
use fatcrab_trading.Maker.{
  FatCrabMakerInnerActor, buy_actor, sell_actor, World, post_new_order, get_order_details,
  get_state, get_peer_pubkey, get_peer_btc_txid, query_offers, query_peer_msg,
}
use fatcrab_trading.Maker.Buy
use fatcrab_trading.Maker.Sell
use fatcrab_trading.Maker.Release.{inner_cases, buy_ctx, BuyCtx, release_notify_peer_cases}
use fatcrab_trading.Maker.Notifications.{
  register_notif_tx, unregister_notif_tx, handle_offer_notif, handle_peer_notif,
}
use fatcrab_trading.Maker.Run.{handle_request, handle_notif, handle_event, shut_down}
use fatcrab_trading.Maker.Types.{MakerEnv, FatCrabMakerRequest, MakerNotif, MakerEvent}

abbrev is_queued_of : FatCrabMakerInnerActor → Bool
is_queued_of (buy_actor b) = b.buy_data.is_queued
is_queued_of (sell_actor s) = s.sell_data.is_queued

abbrev IsSaved : World → Type 0
IsSaved c = is_queued_of c.self.inner ≡ true

abbrev IsSavedBuy : BuyCtx → Type 0
IsSavedBuy c = c.self.buy_data.is_queued ≡ true

module _ (env : MakerEnv) where
  pay_and_notify-IsSaved :
      (a : _) (c : BuyCtx) → IsSavedBuy c → IsSavedBuy (final (Buy.pay_and_notify env a c))
  unfolding Buy.pay_and_notify
  pay_and_notify-IsSaved a c h = ground arith

  release_notify_peer-IsSaved :
      (c : BuyCtx) → IsSavedBuy c → IsSavedBuy (final (Buy.release_notify_peer env c))
  release_notify_peer-IsSaved c h =
      release_notify_peer_cases (λ o. IsSavedBuy (final o)) env c (λ _. ground arith) h
        (λ a _. ground (arith, pay_and_notify-IsSaved a c h))

  handle_request-IsSaved :
      (r : FatCrabMakerRequest) (c : World) → IsSaved c → IsSaved (final (handle_request env r c))
  unfolding handle_request post_new_order get_order_details get_state get_peer_pubkey
      get_peer_btc_txid query_offers query_peer_msg shut_down register_notif_tx unregister_notif_tx
      Buy.cancel_order Sell.cancel_order Buy.trade_response Sell.trade_response Sell.notify_peer
      Buy.check_btc_tx_confirmation Sell.check_btc_tx_confirmation Buy.trade_complete
      Sell.trade_complete
  handle_request-IsSaved (FatCrabMakerRequest.release_notify_peer t) c h =
      elim (inner_cases c.self.inner) [
        | inl (b, e) ↦ ground (arith, release_notify_peer-IsSaved (buy_ctx b c))
        | inr (s, e) ↦ ground arith
      ]
  handle_request-IsSaved (FatCrabMakerRequest.trade_response FatCrabTradeRspType.accept o) c h =
      ground arith
  handle_request-IsSaved (FatCrabMakerRequest.trade_response FatCrabTradeRspType.reject o) c h =
      ground arith
  handle_request-IsSaved _ c h = ground arith

  -- If the persister was queued after the last write of a maker's data, it is so after every event,
  -- on every way out of the handler.
  maker_event-IsSaved :
      (e : MakerEvent) (c : World) → IsSaved c → IsSaved (final (handle_event env e c))
  unfolding handle_event handle_notif handle_offer_notif handle_peer_notif Buy.handle_peer_notif
      Sell.handle_peer_notif
  maker_event-IsSaved (MakerEvent.request r) c h = handle_request-IsSaved r c h
  maker_event-IsSaved (MakerEvent.notification (MakerNotif.offer o)) c h = ground arith
  maker_event-IsSaved (MakerEvent.notification (MakerNotif.peer o)) c h = ground arith
  maker_event-IsSaved (MakerEvent.notification (MakerNotif.failed x)) c h = h

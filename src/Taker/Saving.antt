-- ===== src/Taker/Saving.antt =====
-- A taker's data are queued for saving after every event.
use fatcrab_trading.Base.{Bool, true, ◌≡◌, arith, inl, inr}
use fatcrab_trading.Action.{final}
use fatcrab_trading.N3xb.{TradeResponseEnvelope}
use fatcrab_trading.TradeRsp.{FatCrabTradeRsp, from_n3xb_trade_rsp}
use fatcrab_trading.Taker.{
  FatCrabTakerInnerActor, buy_actor, sell_actor, World, take_order, get_order_details, get_state,
  get_peer_btc_txid, query_peer_msg,
}
use fatcrab_trading.Taker.Buy
use fatcrab_trading.Taker.Sell
use fatcrab_trading.Taker.Release.{inner_cases, sell_ctx, SellCtx, release_btc_notify_peer_cases}
use fatcrab_trading.Taker.Notifications.{
  register_notif_tx, unregister_notif_tx, handle_trade_rsp_notif, handle_peer_notif,
}
use fatcrab_trading.Taker.Run.{handle_request, handle_notif, handle_event, shut_down}
use fatcrab_trading.Taker.Types.{TakerEnv, FatCrabTakerRequest, TakerNotif, TakerEvent}

abbrev is_queued_of : FatCrabTakerInnerActor → Bool
is_queued_of (buy_actor b) = b.buy_data.is_queued
is_queued_of (sell_actor s) = s.sell_data.is_queued

abbrev IsSaved : World → Type 0
IsSaved c = is_queued_of c.self.inner ≡ true

abbrev IsSavedSell : SellCtx → Type 0
IsSavedSell c = c.self.sell_data.is_queued ≡ true

module _ (env : TakerEnv) where
  pay_and_notify-IsSaved :
      (a : _) (c : SellCtx) → IsSavedSell c → IsSavedSell (final (Sell.pay_and_notify env a c))
  unfolding Sell.pay_and_notify
  pay_and_notify-IsSaved a c h = ground arith

  release-IsSaved :
      (c : SellCtx) → IsSavedSell c → IsSavedSell (final (Sell.release_btc_notify_peer env c))
  release-IsSaved c h =
      release_btc_notify_peer_cases (λ o. IsSavedSell (final o)) env c (λ _. h) h
        (λ a _. pay_and_notify-IsSaved a c h)

  answer-IsSaved :
      (t : FatCrabTradeRsp) (n : TradeResponseEnvelope) (c : SellCtx)
      → IsSavedSell c
      → IsSavedSell (final (Sell.handle_trade_rsp_notif env t n c))
  unfolding Sell.handle_trade_rsp_notif
  answer-IsSaved (FatCrabTradeRsp.accept a) n c h = grind (arith, release-IsSaved)
  answer-IsSaved FatCrabTradeRsp.reject n c h = ground arith

  handle_request-IsSaved :
      (r : FatCrabTakerRequest) (c : World) → IsSaved c → IsSaved (final (handle_request env r c))
  unfolding handle_request take_order get_order_details get_state get_peer_btc_txid query_peer_msg
      shut_down register_notif_tx unregister_notif_tx Buy.query_trade_rsp Sell.query_trade_rsp
      Buy.notify_peer Sell.release_notify_peer Buy.check_btc_tx_confirmation
      Sell.check_btc_tx_confirmation Buy.trade_complete Sell.trade_complete
  handle_request-IsSaved (FatCrabTakerRequest.release_notify_peer t) c h =
      elim (inner_cases c.self.inner) [
        | inl (b, e) ↦ ground arith
        | inr (s, e) ↦ ground (arith, release-IsSaved (sell_ctx s c))
      ]
  handle_request-IsSaved _ c h = ground arith

  on_trade_rsp_notif :
      (n : TradeResponseEnvelope) (c : World)
      → IsSaved c
      → IsSaved (final (handle_trade_rsp_notif env n c))
  unfolding handle_trade_rsp_notif from_n3xb_trade_rsp Buy.handle_trade_rsp_notif
  on_trade_rsp_notif n c h = elim (inner_cases c.self.inner) [
    | inl (b, e) ↦ ground arith
    | inr (s, e) ↦ grind (arith, answer-IsSaved)
  ]

  -- If the persister was queued after the last write of a taker's data, it is so after every event,
  -- on every way out of the handler.
  taker_event-IsSaved :
      (e : TakerEvent) (c : World) → IsSaved c → IsSaved (final (handle_event env e c))
  unfolding handle_event handle_notif handle_peer_notif Buy.handle_peer_notif Sell.handle_peer_notif
  taker_event-IsSaved (TakerEvent.request r) c h = handle_request-IsSaved r c h
  taker_event-IsSaved (TakerEvent.notification (TakerNotif.trade_rsp n)) c h =
      on_trade_rsp_notif n c h
  taker_event-IsSaved (TakerEvent.notification (TakerNotif.peer n)) c h = ground arith
  taker_event-IsSaved (TakerEvent.notification (TakerNotif.failed x)) c h = h

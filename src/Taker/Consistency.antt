-- ===== src/Taker/Consistency.antt =====
-- What the states of a taker's trade promise about its data, over every event and every run.
use fatcrab_trading.Base.{true, List, [], ◌∷◌, ◌≡◌, ◌≢◌, arith, is_some, inl, inr}
use fatcrab_trading.Action.{final}
use fatcrab_trading.Common.{PeerEnvelope}
use fatcrab_trading.N3xb.{TradeResponseEnvelope}
use fatcrab_trading.TradeRsp.{from_n3xb_trade_rsp}
use fatcrab_trading.Taker.{
  World, FatCrabTakerInnerActor, buy_actor, sell_actor, take_order, get_order_details, get_state,
  get_peer_btc_txid, query_peer_msg,
}
use fatcrab_trading.Taker.Buy
use fatcrab_trading.Taker.Buy.{FatCrabTakerBuyActor, FatCrabTakerBuyDataStore}
use fatcrab_trading.Taker.Sell
use fatcrab_trading.Taker.Sell.{FatCrabTakerSellActor}
use fatcrab_trading.Taker.Release.{inner_cases, sell_ctx}
use fatcrab_trading.Taker.Lifecycle.{
  IsConsistent, release_notify_peer-IsConsistent, handle_trade_rsp_notif-IsConsistent,
}
use fatcrab_trading.Taker.Notifications.{
  register_notif_tx, unregister_notif_tx, handle_trade_rsp_notif, handle_peer_notif,
}
use fatcrab_trading.Taker.Run.{handle_request, handle_notif, handle_event, shut_down, run}
use fatcrab_trading.Taker.Types.{
  TakerEnv, FatCrabTakerRequest, TakerNotif, TakerEvent, offer_accepted, offer_rejected,
  inbound_btc_notified, inbound_fc_notified,
}
use fatcrab_trading.Purse.{Purse}

-- The taker of a buy order stores the maker's answer and message.
pub record IsConsistentBuy (s : FatCrabTakerBuyDataStore) : Type 0 where
  pub accepted : s.state ≡ offer_accepted → is_some s.trade_rsp_envelope ≡ true
  pub rejected : s.state ≡ offer_rejected → is_some s.trade_rsp_envelope ≡ true
  pub inbound : s.state ≡ inbound_btc_notified → is_some s.peer_envelope ≡ true
  pub never_fc : s.state ≢ inbound_fc_notified

abbrev pub IsConsistentInner : FatCrabTakerInnerActor → Purse → Type 0
IsConsistentInner (buy_actor b) p = IsConsistentBuy b.buy_data.store
IsConsistentInner (sell_actor s) p = IsConsistent s.sell_data.store p

abbrev pub IsConsistentWorld : World → Type 0
IsConsistentWorld c = IsConsistentInner c.self.inner c.purse

module _ (env : TakerEnv) where
  on_buy_request :
      (r : FatCrabTakerRequest) (b : FatCrabTakerBuyActor) (c : World)
      → c.self.inner ≡ buy_actor b
      → IsConsistentWorld c
      → IsConsistentWorld (final (handle_request env r c))
  unfolding handle_request take_order get_order_details get_state get_peer_btc_txid query_peer_msg
      shut_down register_notif_tx unregister_notif_tx Buy.query_trade_rsp Buy.notify_peer
      Buy.check_btc_tx_confirmation Buy.trade_complete
  on_buy_request FatCrabTakerRequest.get_state b c e h = ground arith
  on_buy_request _ b c e h = ground arith

  on_sell_request :
      (r : FatCrabTakerRequest) (s : FatCrabTakerSellActor) (c : World)
      → c.self.inner ≡ sell_actor s
      → IsConsistentWorld c
      → IsConsistentWorld (final (handle_request env r c))
  unfolding handle_request take_order get_order_details get_state get_peer_btc_txid query_peer_msg
      shut_down register_notif_tx unregister_notif_tx Sell.query_trade_rsp
      Sell.check_btc_tx_confirmation Sell.trade_complete
  on_sell_request (FatCrabTakerRequest.release_notify_peer t) s c e h =
      ground (arith, release_notify_peer-IsConsistent env (sell_ctx s c))
  on_sell_request _ s c e h = ground arith

  handle_request-IsConsistent :
      (r : FatCrabTakerRequest) (c : World)
      → IsConsistentWorld c
      → IsConsistentWorld (final (handle_request env r c))
  handle_request-IsConsistent r c h = elim (inner_cases c.self.inner) [
    | inl (b, e) ↦ on_buy_request r b c e h
    | inr (s, e) ↦ on_sell_request r s c e h
  ]

  on_trade_rsp_notif :
      (n : TradeResponseEnvelope) (c : World)
      → IsConsistentWorld c
      → IsConsistentWorld (final (handle_trade_rsp_notif env n c))
  unfolding handle_trade_rsp_notif from_n3xb_trade_rsp Buy.handle_trade_rsp_notif
  on_trade_rsp_notif n c h = elim (inner_cases c.self.inner) [
    | inl (b, e) ↦ ground arith
    | inr (s, e) ↦ grind (arith, handle_trade_rsp_notif-IsConsistent)
  ]

  on_peer_notif :
      (n : PeerEnvelope) (c : World)
      → IsConsistentWorld c
      → IsConsistentWorld (final (handle_peer_notif env n c))
  unfolding handle_peer_notif Buy.handle_peer_notif Sell.handle_peer_notif
  on_peer_notif n c h = elim (inner_cases c.self.inner) [
    | inl (b, e) ↦ ground arith
    | inr (s, e) ↦ ground arith
  ]

  -- Every event keeps the data of a trade consistent with its state, also where its handler panics.
  pub taker_handle_event-IsConsistent :
      (e : TakerEvent) (c : World)
      → IsConsistentWorld c
      → IsConsistentWorld (final (handle_event env e c))
  unfolding handle_event handle_notif
  taker_handle_event-IsConsistent (TakerEvent.request r) c h = handle_request-IsConsistent r c h
  taker_handle_event-IsConsistent (TakerEvent.notification (TakerNotif.trade_rsp n)) c h =
      on_trade_rsp_notif n c h
  taker_handle_event-IsConsistent (TakerEvent.notification (TakerNotif.peer n)) c h =
      on_peer_notif n c h
  taker_handle_event-IsConsistent (TakerEvent.notification (TakerNotif.failed x)) c h = h

-- If a taker's data, and the funds set aside for it, agree with the state of its trade, they do
-- so after any run: whichever requests and notifications come, in whatever order, with whatever
-- answers. In an agreeing trade of a sell order the maker's address is there in `OfferAccepted`,
-- and the funds are gone in `OfferRejected`, `NotifiedOutbound` and `InboundFcNotified`; in one
-- of a buy order the maker's answer, and in `InboundBtcNotified` its message, are there.
pub taker_run-IsConsistent :
    (events : List (TakerEnv × TakerEvent)) (c : World)
    → IsConsistentWorld c
    → IsConsistentWorld (final (run events c))
unfolding run
taker_run-IsConsistent [] c h = h
taker_run-IsConsistent ((env, e) ∷ events) c h = ground (
  arith,
  taker_handle_event-IsConsistent env e c h,
  taker_run-IsConsistent events (final (handle_event env e c)),
)

-- ===== src/Maker/Consistency.antt =====
-- What the states of a maker's trade promise about its data, over every event and every run.
use fatcrab_trading.Base.{true, List, [], ◌∷◌, ◌++◌, ◌≡◌, ◌≢◌, arith, is_some, inl, inr}
use fatcrab_trading.Action.{final}
use fatcrab_trading.Common.{PeerEnvelope}
use fatcrab_trading.N3xb.{OfferEnvelope}
use fatcrab_trading.TradeRsp.{FatCrabTradeRspType}
use fatcrab_trading.Maker.{
  World, FatCrabMakerInnerActor, buy_actor, sell_actor, post_new_order, get_order_details,
  get_state, get_peer_pubkey, get_peer_btc_txid, query_offers, query_peer_msg,
}
use fatcrab_trading.Maker.Buy.{
  FatCrabMakerBuyActor, FatCrabMakerBuyDataStore, cancel_order, trade_response,
  check_btc_tx_confirmation, pay_and_notify, release_notify_peer, trade_complete,
}
use fatcrab_trading.Maker.Buy
use fatcrab_trading.Maker.Sell
use fatcrab_trading.Maker.Sell.{FatCrabMakerSellActor, FatCrabMakerSellDataStore}
use fatcrab_trading.Maker.Release.{inner_cases, buy_ctx}
use fatcrab_trading.Maker.Notifications.{
  register_notif_tx, unregister_notif_tx, handle_offer_notif, handle_peer_notif,
}
use fatcrab_trading.Maker.Run.{handle_request, handle_event, shut_down, run}
use fatcrab_trading.Maker.Types.{
  MakerEnv, FatCrabMakerRequest, MakerNotif, MakerEvent, received_offer, accepted_offer,
  inbound_fc_notified, inbound_btc_notified,
}
use fatcrab_trading.Purse.{Purse}
use fatcrab_trading.Maker.Lifecycle.{
  IsConsistent, cancel_order-IsConsistent, trade_response-IsConsistent,
  release_notify_peer-IsConsistent, trade_complete-IsConsistent,
}

-- The same for the maker of a sell order, who receives bitcoin.
pub record IsConsistentSell (s : FatCrabMakerSellDataStore) : Type 0 where
  pub received : s.state ≡ received_offer → s.offer_envelopes ≢ []
  pub accepted : s.state ≡ accepted_offer → is_some s.peer_pubkey ≡ true
  pub inbound :
      s.state ≡ inbound_btc_notified
      → (is_some s.peer_btc_txid ≡ true) × (is_some s.peer_envelope ≡ true)
  pub never_fc : s.state ≢ inbound_fc_notified

abbrev pub IsConsistentInner : FatCrabMakerInnerActor → Purse → Type 0
IsConsistentInner (buy_actor b) p = IsConsistent b.buy_data.store p
IsConsistentInner (sell_actor s) p = IsConsistentSell s.sell_data.store

abbrev pub IsConsistentWorld : World → Type 0
IsConsistentWorld c = IsConsistentInner c.self.inner c.purse

append-ne-nil {ℓ} : {A : Type ℓ} (xs : List A) (x : A) → xs ++ (x ∷ []) ≢ []
append-ne-nil [] x = ground arith
append-ne-nil (y ∷ ys) x = ground arith

module _ (env : MakerEnv) where
  on_buy_request :
      (r : FatCrabMakerRequest) (b : FatCrabMakerBuyActor) (c : World)
      → c.self.inner ≡ buy_actor b
      → IsConsistentWorld c
      → IsConsistentWorld (final (handle_request env r c))
  unfolding handle_request post_new_order get_order_details get_state get_peer_pubkey
      get_peer_btc_txid query_offers query_peer_msg shut_down register_notif_tx unregister_notif_tx
      check_btc_tx_confirmation
  on_buy_request FatCrabMakerRequest.cancel_order b c e h =
      ground (arith, cancel_order-IsConsistent env (buy_ctx b c))
  on_buy_request (FatCrabMakerRequest.trade_response t o) b c e h =
      ground (arith, trade_response-IsConsistent env (buy_ctx b c) t o)
  on_buy_request FatCrabMakerRequest.trade_complete b c e h =
      ground (arith, trade_complete-IsConsistent env (buy_ctx b c))
  on_buy_request (FatCrabMakerRequest.release_notify_peer t) b c e h =
      ground (arith, release_notify_peer-IsConsistent env (buy_ctx b c))
  on_buy_request _ b c e h = ground arith

  on_sell_request :
      (r : FatCrabMakerRequest) (s : FatCrabMakerSellActor) (c : World)
      → c.self.inner ≡ sell_actor s
      → IsConsistentWorld c
      → IsConsistentWorld (final (handle_request env r c))
  unfolding handle_request post_new_order get_order_details get_state get_peer_pubkey
      get_peer_btc_txid query_offers query_peer_msg shut_down register_notif_tx unregister_notif_tx
      Sell.cancel_order Sell.trade_response Sell.trade_complete Sell.notify_peer
      Sell.check_btc_tx_confirmation
  on_sell_request FatCrabMakerRequest.get_state s c e h = ground arith
  on_sell_request (FatCrabMakerRequest.trade_response FatCrabTradeRspType.accept o) s c e h =
      ground arith
  on_sell_request (FatCrabMakerRequest.trade_response FatCrabTradeRspType.reject o) s c e h =
      ground arith
  on_sell_request _ s c e h = ground arith

  handle_request-IsConsistent :
      (r : FatCrabMakerRequest) (c : World)
      → IsConsistentWorld c
      → IsConsistentWorld (final (handle_request env r c))
  handle_request-IsConsistent r c h = elim (inner_cases c.self.inner) [
    | inl (b, e) ↦ on_buy_request r b c e h
    | inr (s, e) ↦ on_sell_request r s c e h
  ]

  handle_offer_notif-IsConsistent :
      (o : OfferEnvelope) (c : World)
      → IsConsistentWorld c
      → IsConsistentWorld (final (handle_offer_notif env o c))
  unfolding handle_offer_notif
  handle_offer_notif-IsConsistent o c h = elim (inner_cases c.self.inner) [
    | inl (b, e) ↦ ground (
      arith,
      append-ne-nil b.buy_data.store.offer_envelopes (record { pubkey = o.pubkey; envelope = o }),
    )
    | inr (s, e) ↦ ground (
      arith,
      append-ne-nil s.sell_data.store.offer_envelopes (record { pubkey = o.pubkey; envelope = o }),
    )
  ]

  handle_peer_notif-IsConsistent :
      (o : PeerEnvelope) (c : World)
      → IsConsistentWorld c
      → IsConsistentWorld (final (handle_peer_notif env o c))
  unfolding handle_peer_notif Buy.handle_peer_notif Sell.handle_peer_notif
  handle_peer_notif-IsConsistent o c h = elim (inner_cases c.self.inner) [
    | inl (b, e) ↦ ground arith
    | inr (s, e) ↦ ground arith
  ]

  -- Every event keeps the data of a trade consistent with its state, also where its handler panics.
  pub handle_event-IsConsistent :
      (e : MakerEvent) (c : World)
      → IsConsistentWorld c
      → IsConsistentWorld (final (handle_event env e c))
  unfolding handle_event
  handle_event-IsConsistent (MakerEvent.request r) c h = handle_request-IsConsistent r c h
  handle_event-IsConsistent (MakerEvent.notification (MakerNotif.offer o)) c h =
      handle_offer_notif-IsConsistent o c h
  handle_event-IsConsistent (MakerEvent.notification (MakerNotif.peer o)) c h =
      handle_peer_notif-IsConsistent o c h
  handle_event-IsConsistent (MakerEvent.notification (MakerNotif.failed x)) c h = h

-- If a maker's data, and the funds set aside for it, agree with the state of its trade, they do
-- so after any run: whichever requests and notifications come, in whatever order, with whatever
-- answers. An agreeing trade has an offer in `ReceivedOffer`, a peer in `AcceptedOffer`, the
-- peer's address or transaction id and its message in `InboundFcNotified` or
-- `InboundBtcNotified`, and a buy order's funds are gone in `NotifiedOutbound` and in
-- `TradeCancelled`.
pub run-IsConsistent :
    (events : List (MakerEnv × MakerEvent)) (c : World)
    → IsConsistentWorld c
    → IsConsistentWorld (final (run events c))
unfolding run
run-IsConsistent [] c h = h
run-IsConsistent ((env, e) ∷ events) c h = ground (
  arith,
  handle_event-IsConsistent env e c h,
  run-IsConsistent events (final (handle_event env e c)),
)

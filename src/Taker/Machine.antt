-- ===== src/Taker/Machine.antt =====
-- The state machine of a taker's trade: what each event may do to the state, and that the code stays
-- within it.
use fatcrab_trading.Base.{⊤, ◌≡◌, refl, arith, ◌⊎◌, inl, inr}
use fatcrab_trading.Action.{Outcome, final}
use fatcrab_trading.N3xb.{TradeResponseEnvelope}
use fatcrab_trading.TradeRsp.{FatCrabTradeRsp, from_n3xb_trade_rsp}
use fatcrab_trading.Taker.{
  World, state_of, take_order, get_order_details, get_state, get_peer_btc_txid, query_peer_msg,
}
use fatcrab_trading.Taker.Buy
use fatcrab_trading.Taker.Sell
use fatcrab_trading.Taker.Release.{inner_cases, sell_ctx, SellCtx, release_btc_notify_peer_cases}
use fatcrab_trading.Taker.Notifications.{
  register_notif_tx, unregister_notif_tx, handle_trade_rsp_notif, handle_peer_notif,
}
use fatcrab_trading.Taker.Run.{handle_request, handle_notif, handle_event, shut_down}
use fatcrab_trading.Taker.Types.{
  TakerEnv, FatCrabTakerRequest, TakerNotif, TakerEvent, FatCrabTakerState, submitted_offer,
  offer_accepted, offer_rejected, notified_outbound, inbound_btc_notified, inbound_fc_notified,
  trade_completed,
}

-- The move that an event may make from the state `s` to another one. An accepting answer takes the
-- taker of a sell order on to `NotifiedOutbound` where the payment goes out.
abbrev pub Moves : TakerEvent → FatCrabTakerState → FatCrabTakerState → Type 0
Moves (TakerEvent.request FatCrabTakerRequest.take_order) s s' = s' ≡ submitted_offer
Moves (TakerEvent.request (FatCrabTakerRequest.release_notify_peer t)) s s' = s' ≡ notified_outbound
Moves (TakerEvent.request FatCrabTakerRequest.trade_complete) s s' = s' ≡ trade_completed
Moves (TakerEvent.notification (TakerNotif.trade_rsp n)) s s' =
    (s ≡ submitted_offer)
    × ((s' ≡ offer_accepted) ⊎ (s' ≡ offer_rejected) ⊎ (s' ≡ notified_outbound))
Moves (TakerEvent.notification (TakerNotif.peer n)) s s' =
    (s ≡ notified_outbound) × ((s' ≡ inbound_btc_notified) ⊎ (s' ≡ inbound_fc_notified))
Moves _ s s' = ⊥

abbrev pub Steps : TakerEvent → FatCrabTakerState → FatCrabTakerState → Type 0
Steps e s s' = (s' ≡ s) ⊎ Moves e s s'

abbrev pub state_in : World → FatCrabTakerState
state_in c = state_of c.self.inner

abbrev Stays : SellCtx → Outcome SellCtx ⊤ → Type 0
Stays c o = (final o).self.sell_data.store.state ≡ c.self.sell_data.store.state

module _ (env : TakerEnv) where
  pay_and_notify-Stays : (a : _) (c : SellCtx) → Stays c (Sell.pay_and_notify env a c)
  unfolding Sell.pay_and_notify
  pay_and_notify-Stays a c = ground arith

  release-Stays : (c : SellCtx) → Stays c (Sell.release_btc_notify_peer env c)
  release-Stays c =
      release_btc_notify_peer_cases (Stays c) env c (λ _. refl) refl
        (λ a _. pay_and_notify-Stays a c)

  answer-state :
      (t : FatCrabTradeRsp) (n : TradeResponseEnvelope) (c : SellCtx)
      → let s' = (final (Sell.handle_trade_rsp_notif env t n c)).self.sell_data.store.state in
        (s' ≡ c.self.sell_data.store.state)
        ⊎ (s' ≡ offer_accepted)
        ⊎ (s' ≡ offer_rejected)
        ⊎ (s' ≡ notified_outbound)
  unfolding Sell.handle_trade_rsp_notif
  answer-state (FatCrabTradeRsp.accept a) n c = grind (arith, release-Stays)
  answer-state FatCrabTradeRsp.reject n c = ground arith

  handle_request-Steps :
      (r : FatCrabTakerRequest) (c : World)
      → Steps (TakerEvent.request r) (state_in c) (state_in (final (handle_request env r c)))
  unfolding handle_request take_order get_order_details get_state get_peer_btc_txid query_peer_msg
      shut_down register_notif_tx unregister_notif_tx Buy.query_trade_rsp Sell.query_trade_rsp
      Buy.notify_peer Sell.release_notify_peer Buy.check_btc_tx_confirmation
      Sell.check_btc_tx_confirmation Buy.trade_complete Sell.trade_complete
  handle_request-Steps (FatCrabTakerRequest.release_notify_peer t) c =
      elim (inner_cases c.self.inner) [
        | inl (b, e) ↦ ground arith
        | inr (s, e) ↦ ground (arith, release-Stays (sell_ctx s c))
      ]
  handle_request-Steps _ c = ground arith

  handle_trade_rsp_notif-Steps :
      (n : TradeResponseEnvelope) (c : World)
      → Steps
          (TakerEvent.notification (TakerNotif.trade_rsp n))
          (state_in c)
          (state_in (final (handle_trade_rsp_notif env n c)))
  unfolding handle_trade_rsp_notif from_n3xb_trade_rsp Buy.handle_trade_rsp_notif
  handle_trade_rsp_notif-Steps n c = elim (inner_cases c.self.inner) [
    | inl (b, e) ↦ ground arith
    | inr (s, e) ↦ grind (arith, answer-state)
  ]

  -- The taker's handlers stay within the state machine: an event leaves the state alone or makes a
  -- move that the machine has for it, on every way out of the handler.
  pub taker_handle_event-Steps :
      (e : TakerEvent) (c : World) → Steps e (state_in c) (state_in (final (handle_event env e c)))
  unfolding handle_event handle_notif handle_peer_notif Buy.handle_peer_notif Sell.handle_peer_notif
  taker_handle_event-Steps (TakerEvent.request r) c = handle_request-Steps r c
  taker_handle_event-Steps (TakerEvent.notification (TakerNotif.trade_rsp n)) c =
      handle_trade_rsp_notif-Steps n c
  taker_handle_event-Steps (TakerEvent.notification (TakerNotif.peer n)) c = ground arith
  taker_handle_event-Steps (TakerEvent.notification (TakerNotif.failed x)) c = inl refl

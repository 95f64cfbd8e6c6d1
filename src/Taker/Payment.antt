-- ===== src/Taker/Payment.antt =====
-- What a taker pays: to whom, from which funds, and how much.
use fatcrab_trading.Base.{String, Option, ◌≡◌, ◌≢◌, refl, arith, ◌⊎◌, inl, inr}
use mathlib.Core.Path.{subst⁻¹}
use fatcrab_trading.Action.{final}
use fatcrab_trading.Common.{Address}
use fatcrab_trading.N3xb.{
  TradeResponseEnvelope, TradeResponseStatus, TradeEngineSpecifics, fatcrab_make_trade_rsp,
  other_specifics, accepted, rejected, not_available,
}
use fatcrab_trading.TradeRsp.{FatCrabTradeRsp, from_n3xb_trade_rsp}
use fatcrab_trading.Taker.{
  World, sell_actor, take_order, get_order_details, get_state, get_peer_btc_txid, query_peer_msg,
}
use fatcrab_trading.Taker.Buy
use fatcrab_trading.Taker.Sell
use fatcrab_trading.Taker.Release.{sell_ctx, SellCtx, IsStored, release_btc_notify_peer_cases}
use fatcrab_trading.Taker.Notifications.{
  register_notif_tx, unregister_notif_tx, handle_trade_rsp_notif, handle_peer_notif,
}
use fatcrab_trading.Taker.Run.{handle_request, handle_notif, handle_event, shut_down}
use fatcrab_trading.Taker.Types.{
  TakerEnv, FatCrabTakerRequest, TakerNotif, TakerEvent, FatCrabTakerState,
}
use fatcrab_trading.Purse.{Purse, free_funds, send_funds, get_tx_conf, data_deallocate_funds}
use fatcrab_trading.Purse.Spending.{send_funds-SendOutcome}
use fatcrab_trading.Maker.Payment.{PaysOnly, SendOutcome-PaysOnly}

-- The actor after it has stored the address of an accepting answer.
abbrev pub answered : String → SellCtx → SellCtx
answered text c = final (Sell.set_peer_btc_addr text c)

-- The address is the stored one, or the one that an answer accepting the offer brings.
abbrev pub IsPeerAddress : TakerEnv → TakerEvent → SellCtx → Address → Type 0
IsPeerAddress env (TakerEvent.notification (TakerNotif.trade_rsp n)) c a =
    (text : String) × (n.trade_rsp.trade_engine_specifics ≡ fatcrab_make_trade_rsp text)
    × IsStored env (answered text c) a
IsPeerAddress env _ c a = IsStored env c a

status_cases : (t : TradeResponseStatus) → (t ≡ accepted) ⊎ (t ≢ accepted)
status_cases accepted = inl refl
status_cases rejected = inr (ground arith)
status_cases not_available = inr (ground arith)

specifics_cases :
    (t : TradeEngineSpecifics)
    → ((text : String) × (t ≡ fatcrab_make_trade_rsp text)) ⊎ (t ≡ other_specifics)
specifics_cases (fatcrab_make_trade_rsp text) = inl (text, refl)
specifics_cases other_specifics = inr refl

state_cases :
    (t : FatCrabTakerState)
    → (t ≡ FatCrabTakerState.submitted_offer) ⊎ (t ≢ FatCrabTakerState.submitted_offer)
state_cases FatCrabTakerState.submitted_offer = inl refl
state_cases _ = inr (ground arith)

module _ (env : TakerEnv) where
  pay_and_notify-purse :
      (a : Address) (c : SellCtx)
      → (final (Sell.pay_and_notify env a c)).purse
        ≡ final (send_funds env.wallet c.self.sell_data.store.btc_funds_id a c.purse)
  unfolding Sell.pay_and_notify
  pay_and_notify-purse a c = ground arith

  release_btc_notify_peer-PaysOnly :
      (To : Address → Type 0) (c : SellCtx)
      → ((a : Address) → IsStored env c a → To a)
      → PaysOnly To c.self.sell_data.store.btc_funds_id c.purse
          (final (Sell.release_btc_notify_peer env c)).purse
  release_btc_notify_peer-PaysOnly To c to =
      let id = c.self.sell_data.store.btc_funds_id in
      let PaysFrom = PaysOnly To id c.purse in
      release_btc_notify_peer_cases (λ o. PaysFrom (final o).purse) env c (λ _. inl refl) (inl refl)
        (λ a stored. subst⁻¹ PaysFrom (pay_and_notify-purse a c) (
          SendOutcome-PaysOnly To id a c.purse (send_funds env.wallet id a c.purse) (to a stored)
            (send_funds-SendOutcome env.wallet id c.purse a)))

  release-purse :
      (t : Option String) (c : World) (s : Sell.FatCrabTakerSellActor)
      → c.self.inner ≡ sell_actor s
      → (final (handle_request env (FatCrabTakerRequest.release_notify_peer t) c)).purse
        ≡ (final (Sell.release_btc_notify_peer env (sell_ctx s c))).purse
  unfolding handle_request Sell.release_notify_peer
  release-purse t c s e = ground arith

  accepting-purse :
      (text : String) (n : TradeResponseEnvelope) (c : SellCtx)
      → (final (Sell.handle_trade_rsp_notif env (FatCrabTradeRsp.accept text) n c)).purse
        ≡ (final (
            Sell.release_btc_notify_peer env
              (final (Sell.set_state FatCrabTakerState.offer_accepted (answered text c))))).purse
  unfolding Sell.handle_trade_rsp_notif
  accepting-purse text n c = ground arith

  rejecting-quiet :
      (n : TradeResponseEnvelope) (c : SellCtx)
      → (final (Sell.handle_trade_rsp_notif env FatCrabTradeRsp.reject n c)).purse.sent
        ≡ c.purse.sent
  unfolding Sell.handle_trade_rsp_notif free_funds data_deallocate_funds
  rejecting-quiet n c = ground arith

  -- The other events broadcast nothing.
  handle_request-quiet :
      (r : FatCrabTakerRequest) (c : World)
      → ((t : Option String) → r ≢ FatCrabTakerRequest.release_notify_peer t)
      → (final (handle_request env r c)).purse.sent ≡ c.purse.sent
  unfolding handle_request take_order get_order_details get_state get_peer_btc_txid query_peer_msg
      shut_down register_notif_tx unregister_notif_tx Buy.query_trade_rsp Sell.query_trade_rsp
      Buy.check_btc_tx_confirmation Sell.check_btc_tx_confirmation Buy.trade_complete
      Sell.trade_complete get_tx_conf
  handle_request-quiet (FatCrabTakerRequest.release_notify_peer t) c h = absurd (h t refl)
  handle_request-quiet _ c h = ground arith

  handle_peer_notif-quiet :
      (n : _) (c : World) → (final (handle_peer_notif env n c)).purse.sent ≡ c.purse.sent
  unfolding handle_peer_notif Buy.handle_peer_notif Sell.handle_peer_notif
  handle_peer_notif-quiet n c = ground arith

  answer-purse-cases :
      (Q : Purse → Type 0) (n : TradeResponseEnvelope) (c : World) (s : Sell.FatCrabTakerSellActor)
      → c.self.inner ≡ sell_actor s
      → Q c.purse
      → ((text : String)
          → n.trade_rsp.trade_engine_specifics ≡ fatcrab_make_trade_rsp text
          → Q
              (final (
                Sell.handle_trade_rsp_notif env
                  (FatCrabTradeRsp.accept text)
                  n
                  (sell_ctx s c))).purse)
      → Q (final (Sell.handle_trade_rsp_notif env FatCrabTradeRsp.reject n (sell_ctx s c))).purse
      → Q (final (handle_trade_rsp_notif env n c)).purse
  unfolding handle_trade_rsp_notif from_n3xb_trade_rsp
  answer-purse-cases Q n c s e stays accepting rejecting =
      elim (status_cases n.trade_rsp.trade_response) [
        | inl f ↦ elim (specifics_cases n.trade_rsp.trade_engine_specifics) [
          | inl (text, g) ↦ elim (state_cases s.sell_data.store.state) [
            | inl h ↦ subst⁻¹ Q (ground arith) (accepting text g)
            | inr h ↦ subst⁻¹ Q (ground arith) stays
          ]
          | inr g ↦ subst⁻¹ Q (ground arith) stays
        ]
        | inr f ↦ elim (state_cases s.sell_data.store.state) [
          | inl h ↦ subst⁻¹ Q (ground arith) rejecting
          | inr h ↦ subst⁻¹ Q (ground arith) stays
        ]
      ]

  answer-PaysOnly :
      (n : TradeResponseEnvelope) (c : World) (s : Sell.FatCrabTakerSellActor)
      → c.self.inner ≡ sell_actor s
      → PaysOnly
          (IsPeerAddress env (TakerEvent.notification (TakerNotif.trade_rsp n)) (sell_ctx s c))
          s.sell_data.store.btc_funds_id
          c.purse
          (final (handle_trade_rsp_notif env n c)).purse
  answer-PaysOnly n c s e =
      let To =
        IsPeerAddress env (TakerEvent.notification (TakerNotif.trade_rsp n)) (sell_ctx s c) in
      let PaysFrom = PaysOnly To s.sell_data.store.btc_funds_id c.purse in
      answer-purse-cases PaysFrom n c s e (inl refl)
        (λ text g. subst⁻¹ PaysFrom (accepting-purse text n (sell_ctx s c)) (
          release_btc_notify_peer-PaysOnly To
            (final (Sell.set_state FatCrabTakerState.offer_accepted (answered text (sell_ctx s c))))
            (λ a stored. (text, g, stored))))
        (inl (rejecting-quiet n (sell_ctx s c)))

  pub taker_event-PaysOnly :
      (e : TakerEvent) (c : World) (s : Sell.FatCrabTakerSellActor)
      → c.self.inner ≡ sell_actor s
      → PaysOnly
          (IsPeerAddress env e (sell_ctx s c))
          s.sell_data.store.btc_funds_id
          c.purse
          (final (handle_event env e c)).purse
  unfolding handle_event handle_notif
  taker_event-PaysOnly (TakerEvent.request (FatCrabTakerRequest.release_notify_peer t)) c s e =
      subst⁻¹ (PaysOnly (IsStored env (sell_ctx s c)) s.sell_data.store.btc_funds_id c.purse)
        (release-purse t c s e)
        (release_btc_notify_peer-PaysOnly (IsStored env (sell_ctx s c)) (sell_ctx s c)
          (λ a stored. stored))
  taker_event-PaysOnly (TakerEvent.notification (TakerNotif.trade_rsp n)) c s e =
      answer-PaysOnly n c s e
  taker_event-PaysOnly (TakerEvent.notification (TakerNotif.peer n)) c s e =
      inl (handle_peer_notif-quiet n c)
  taker_event-PaysOnly (TakerEvent.notification (TakerNotif.failed x)) c s e = inl refl
  taker_event-PaysOnly (TakerEvent.request r) c s e = inl (handle_request-quiet r c (ground arith))

-- ===== src/Exchange/Knowledge.antt =====
-- What the maker of a buy order knows of its peer, and what the taker tells.
use fatcrab_trading.Base.{ℕ, zero, suc, ⊤, String, some, List, [], ◌∷◌, ◌≡◌, arith, inl, inr}
use fatcrab_trading.Base.Dict.{Uuid}
use fatcrab_trading.Action.{final}
use fatcrab_trading.Common.{FatCrabPeerMessage, parse_address}
use fatcrab_trading.N3xb.{OfferEnvelope}
use fatcrab_trading.TradeRsp.{FatCrabTradeRspType, from_n3xb_trade_rsp}
use fatcrab_trading.Maker
use fatcrab_trading.Maker.Buy
use fatcrab_trading.Maker.Types.{MakerEnv, MakerEvent, MakerNotif, FatCrabMakerRequest}
use fatcrab_trading.Taker
use fatcrab_trading.Taker.Types.{TakerEnv, TakerEvent, FatCrabTakerRequest}
use fatcrab_trading.Exchange.{carried}
use fatcrab_trading.Exchange.Moves.{messages, at, Agrees, Keeps, IsOwn}

module _ (text : String) (id : Uuid) where
  -- The maker of a buy order with these funds, who knows this address of the peer, or none.
  abbrev pub Knows : Maker.FatCrabMakerInnerActor → Type 0
  Knows (Maker.buy_actor b) =
      Agrees text b.buy_data.store.peer_btc_addr × (b.buy_data.store.btc_funds_id ≡ id)
  Knows (Maker.sell_actor s) = ⊥

  on_request-Knows :
      (env : MakerEnv) (r : FatCrabMakerRequest) (c : Maker.World)
      → Knows c.self.inner
      → Knows (final (Maker.Run.handle_request env r c)).self.inner
  unfolding Maker.Run.handle_request Maker.post_new_order Maker.get_order_details Maker.get_state
      Maker.get_peer_pubkey Maker.get_peer_btc_txid Maker.query_offers Maker.query_peer_msg
      Maker.Run.shut_down Maker.Notifications.register_notif_tx
      Maker.Notifications.unregister_notif_tx Buy.cancel_order Buy.trade_response
      Buy.release_notify_peer Buy.pay_and_notify Buy.check_btc_tx_confirmation Buy.trade_complete
  on_request-Knows env (FatCrabMakerRequest.trade_response FatCrabTradeRspType.accept o) c h =
      ground arith
  on_request-Knows env (FatCrabMakerRequest.trade_response FatCrabTradeRspType.reject o) c h =
      ground arith
  on_request-Knows env _ c h = ground arith

  on_offer-Knows :
      (env : MakerEnv) (o : OfferEnvelope) (c : Maker.World)
      → Knows c.self.inner
      → Knows (final (Maker.Notifications.handle_offer_notif env o c)).self.inner
  unfolding Maker.Notifications.handle_offer_notif
  on_offer-Knows env o c h = ground arith

  on_message-Knows :
      (env : MakerEnv) (m : FatCrabPeerMessage) (c : Maker.World)
      → Keeps text env.crate
      → m.receive_address ≡ text
      → Knows c.self.inner
      → Knows (final (Maker.Notifications.handle_peer_notif env (carried m) c)).self.inner
  unfolding Maker.Notifications.handle_peer_notif Buy.handle_peer_notif
  on_message-Knows env m c keeps own h = ground (arith, keeps.from_str, keeps.same c.purse.network)

  pub own_event-Knows :
      (env : MakerEnv) (e : MakerEvent) (c : Maker.World)
      → IsOwn e
      → Knows c.self.inner
      → Knows (final (Maker.Run.handle_event env e c)).self.inner
  unfolding Maker.Run.handle_event Maker.Run.handle_notif
  own_event-Knows env (MakerEvent.request r) c own h = on_request-Knows env r c h
  own_event-Knows env (MakerEvent.notification (MakerNotif.offer o)) c own h =
      on_offer-Knows env o c h
  own_event-Knows env (MakerEvent.notification (MakerNotif.peer o)) c own h = absurd own
  own_event-Knows env (MakerEvent.notification (MakerNotif.failed x)) c own h = h

  abbrev pub peer_event : FatCrabPeerMessage → MakerEvent
  peer_event m = MakerEvent.notification (MakerNotif.peer (carried m))

  pub message_event-Knows :
      (env : MakerEnv) (m : FatCrabPeerMessage) (c : Maker.World)
      → Keeps text env.crate
      → m.receive_address ≡ text
      → Knows c.self.inner
      → Knows (final (Maker.Run.handle_event env (peer_event m) c)).self.inner
  unfolding Maker.Run.handle_event Maker.Run.handle_notif
  message_event-Knows env m c keeps own h = on_message-Knows env m c keeps own h

module _ (text : String) where
  -- The taker of a buy order with this address of its wallet, who has told the maker no other.
  abbrev pub Says : List FatCrabPeerMessage → Type 0
  Says [] = ⊤
  Says (m ∷ ms) = (m.receive_address ≡ text) × Says ms

  abbrev pub Owns : Taker.FatCrabTakerInnerActor → Type 0
  Owns (Taker.buy_actor b) = b.buy_data.store.btc_rx_addr ≡ text
  Owns (Taker.sell_actor s) = ⊥

  abbrev pub Tells : Taker.World → Type 0
  Tells c = Owns c.self.inner × Says (messages c.out)

  pub at-Says :
      (n : ℕ) (ms : List FatCrabPeerMessage) (m : FatCrabPeerMessage)
      → Says ms
      → at n ms ≡ some m
      → m.receive_address ≡ text
  at-Says n [] m h e = ground arith
  at-Says zero (x ∷ ms) m h e = ground (arith, h.0)
  at-Says (suc n) (x ∷ ms) m h e = at-Says n ms m h.1 e

  buy_event-Tells :
      (env : TakerEnv) (e : TakerEvent) (c : Taker.World) (b : Taker.Buy.FatCrabTakerBuyActor)
      → c.self.inner ≡ Taker.buy_actor b
      → Keeps text env.crate
      → Tells c
      → Tells (final (Taker.Run.handle_event env e c))
  unfolding Taker.Run.handle_event Taker.Run.handle_request Taker.Run.handle_notif Taker.take_order
      Taker.get_order_details Taker.get_state Taker.get_peer_btc_txid Taker.query_peer_msg
      Taker.Run.shut_down Taker.Notifications.register_notif_tx
      Taker.Notifications.unregister_notif_tx Taker.Notifications.handle_trade_rsp_notif
      Taker.Notifications.handle_peer_notif Taker.Buy.query_trade_rsp Taker.Buy.notify_peer
      Taker.Buy.check_btc_tx_confirmation Taker.Buy.trade_complete Taker.Buy.handle_trade_rsp_notif
      Taker.Buy.handle_peer_notif from_n3xb_trade_rsp parse_address
  buy_event-Tells env (TakerEvent.request FatCrabTakerRequest.get_state) c b is keeps h =
      ground arith
  buy_event-Tells env (TakerEvent.request (FatCrabTakerRequest.release_notify_peer t)) c b is keeps
        h =
      ground (arith, keeps.from_str, keeps.same b.buy_data.network)
  buy_event-Tells env (TakerEvent.request r) c b is keeps h = ground arith
  buy_event-Tells env (TakerEvent.notification n) c b is keeps h = ground arith

  pub event-Tells :
      (env : TakerEnv) (e : TakerEvent) (c : Taker.World)
      → Keeps text env.crate
      → Tells c
      → Tells (final (Taker.Run.handle_event env e c))
  event-Tells env e c keeps h = elim (Taker.Release.inner_cases c.self.inner) [
    | inl (b, is) ↦ buy_event-Tells env e c b is keeps h
    | inr (s, is) ↦ ground arith
  ]

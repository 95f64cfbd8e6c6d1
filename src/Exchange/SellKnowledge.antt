-- ===== src/Exchange/SellKnowledge.antt =====
-- What the maker of a sell order tells its peer, and what the taker knows.
use fatcrab_trading.Base.{ℕ, zero, suc, ⊤, String, some, List, [], ◌∷◌, ◌≡◌, arith, inl, inr}
use fatcrab_trading.Base.Dict.{Uuid}
use fatcrab_trading.Action.{final}
use fatcrab_trading.Common.{parse_address}
use fatcrab_trading.N3xb.{TradeResponse}
use fatcrab_trading.TradeRsp.{FatCrabTradeRspType, from_n3xb_trade_rsp}
use fatcrab_trading.Maker
use fatcrab_trading.Maker.Types.{MakerEnv, MakerEvent, MakerNotif, FatCrabMakerRequest}
use fatcrab_trading.Taker
use fatcrab_trading.Taker.Types.{TakerEnv, TakerEvent, TakerNotif, FatCrabTakerRequest}
use fatcrab_trading.Exchange.Moves.{at, Agrees, Keeps}
use fatcrab_trading.Exchange.SellMoves.{answers, answer_event, Names, IsUnanswered}

module _ (text : String) where
  -- The maker of a sell order with this address of its wallet, who has told the taker no other.
  abbrev pub Answers : List TradeResponse → Type 0
  Answers [] = ⊤
  Answers (r ∷ rs) = Names text r.trade_engine_specifics × Answers rs

  abbrev pub OwnsSell : Maker.FatCrabMakerInnerActor → Type 0
  OwnsSell (Maker.buy_actor b) = ⊥
  OwnsSell (Maker.sell_actor s) = s.sell_data.store.btc_rx_addr ≡ text

  abbrev pub TellsSell : Maker.World → Type 0
  TellsSell c = OwnsSell c.self.inner × Answers (answers c.out)

  pub at-Answers :
      (n : ℕ) (rs : List TradeResponse) (r : TradeResponse)
      → Answers rs
      → at n rs ≡ some r
      → Names text r.trade_engine_specifics
  at-Answers n [] r h e = ground arith
  at-Answers zero (x ∷ rs) r h e = ground (arith, h.0)
  at-Answers (suc n) (x ∷ rs) r h e = at-Answers n rs r h.1 e

  sell_request-Tells :
      (env : MakerEnv) (r : FatCrabMakerRequest) (c : Maker.World)
      (s : Maker.Sell.FatCrabMakerSellActor)
      → c.self.inner ≡ Maker.sell_actor s
      → Keeps text env.crate
      → TellsSell c
      → TellsSell (final (Maker.Run.handle_request env r c))
  unfolding Maker.Run.handle_request Maker.post_new_order Maker.get_order_details Maker.get_state
      Maker.get_peer_pubkey Maker.get_peer_btc_txid Maker.query_offers Maker.query_peer_msg
      Maker.Run.shut_down Maker.Notifications.register_notif_tx
      Maker.Notifications.unregister_notif_tx Maker.Sell.cancel_order Maker.Sell.trade_response
      Maker.Sell.notify_peer Maker.Sell.check_btc_tx_confirmation Maker.Sell.trade_complete
      parse_address
  sell_request-Tells env (FatCrabMakerRequest.trade_response FatCrabTradeRspType.accept o) c s is
        keeps h =
      ground (arith, keeps.from_str, keeps.same s.sell_data.network)
  sell_request-Tells env (FatCrabMakerRequest.trade_response FatCrabTradeRspType.reject o) c s is
        keeps h =
      ground arith
  sell_request-Tells env r c s is keeps h = ground arith

  sell_notif-Tells :
      (env : MakerEnv) (n : MakerNotif) (c : Maker.World) (s : Maker.Sell.FatCrabMakerSellActor)
      → c.self.inner ≡ Maker.sell_actor s
      → TellsSell c
      → TellsSell (final (Maker.Run.handle_notif env n c))
  unfolding Maker.Run.handle_notif Maker.Notifications.handle_offer_notif
      Maker.Notifications.handle_offer_in_unexpected_state Maker.Notifications.handle_peer_notif
      Maker.Sell.handle_peer_notif
  sell_notif-Tells env n c s is h = ground arith

  pub sell_event-Tells :
      (env : MakerEnv) (e : MakerEvent) (c : Maker.World)
      → Keeps text env.crate
      → TellsSell c
      → TellsSell (final (Maker.Run.handle_event env e c))
  unfolding Maker.Run.handle_event
  sell_event-Tells env (MakerEvent.request r) c keeps h =
      elim (Maker.Release.inner_cases c.self.inner) [
        | inl (b, is) ↦ ground arith
        | inr (s, is) ↦ sell_request-Tells env r c s is keeps h
      ]
  sell_event-Tells env (MakerEvent.notification n) c keeps h =
      elim (Maker.Release.inner_cases c.self.inner) [
        | inl (b, is) ↦ ground arith
        | inr (s, is) ↦ sell_notif-Tells env n c s is h
      ]

module _ (text : String) (id : Uuid) where
  -- The taker of a sell order with these funds, who knows this address of the peer, or none.
  abbrev pub KnowsSell : Taker.FatCrabTakerInnerActor → Type 0
  KnowsSell (Taker.buy_actor b) = ⊥
  KnowsSell (Taker.sell_actor s) =
      Agrees text s.sell_data.store.peer_btc_addr × (s.sell_data.store.btc_funds_id ≡ id)

  on_request-KnowsSell :
      (env : TakerEnv) (r : FatCrabTakerRequest) (c : Taker.World)
      → KnowsSell c.self.inner
      → KnowsSell (final (Taker.Run.handle_request env r c)).self.inner
  unfolding Taker.Run.handle_request Taker.take_order Taker.get_order_details Taker.get_state
      Taker.get_peer_btc_txid Taker.query_peer_msg Taker.Run.shut_down
      Taker.Notifications.register_notif_tx Taker.Notifications.unregister_notif_tx
      Taker.Sell.query_trade_rsp Taker.Sell.release_notify_peer Taker.Sell.release_btc_notify_peer
      Taker.Sell.pay_and_notify Taker.Sell.check_btc_tx_confirmation Taker.Sell.trade_complete
  on_request-KnowsSell env r c h = ground arith

  pub on_answer-KnowsSell :
      (env : TakerEnv) (r : TradeResponse) (c : Taker.World)
      → Names text r.trade_engine_specifics
      → KnowsSell c.self.inner
      → KnowsSell (final (Taker.Run.handle_event env (answer_event r) c)).self.inner
  unfolding Taker.Run.handle_event Taker.Run.handle_notif Taker.Notifications.handle_trade_rsp_notif
      Taker.Sell.handle_trade_rsp_notif Taker.Sell.release_btc_notify_peer Taker.Sell.pay_and_notify
      Taker.Sell.notify_trade_rsp from_n3xb_trade_rsp
  on_answer-KnowsSell env r c names h = ground arith

  pub own_event-KnowsSell :
      (env : TakerEnv) (e : TakerEvent) (c : Taker.World)
      → IsUnanswered e
      → KnowsSell c.self.inner
      → KnowsSell (final (Taker.Run.handle_event env e c)).self.inner
  unfolding Taker.Run.handle_event Taker.Run.handle_notif Taker.Notifications.handle_peer_notif
      Taker.Sell.handle_peer_notif
  own_event-KnowsSell env (TakerEvent.request r) c own h = on_request-KnowsSell env r c h
  own_event-KnowsSell env (TakerEvent.notification (TakerNotif.trade_rsp n)) c own h = absurd own
  own_event-KnowsSell env (TakerEvent.notification (TakerNotif.peer n)) c own h = ground arith
  own_event-KnowsSell env (TakerEvent.notification (TakerNotif.failed x)) c own h = h

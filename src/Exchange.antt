-- ===== src/Exchange.antt =====
-- The trade of two engines: a maker of src/maker and a taker of src/taker whose messages reach each other.
-- The n3xb crate delivers what one side hands to it: the answer to the offer and the peers' messages.
pub mod BuyOrder
pub mod SellOrder
pub mod Moves
pub mod Knowledge
pub mod Safety
pub mod SellMoves
pub mod SellKnowledge
pub mod SellSafety
mod Tests
use fatcrab_trading.Base.{⊤, true, String, Option, none, some, List, [], ◌∷◌}
use fatcrab_trading.Action.{final}
use fatcrab_trading.Common.{BitcoinCrate, FatCrabPeerMessage, PeerEnvelope, fatcrab_peer_message}
use fatcrab_trading.N3xb.{TradeResponse, TradeResponseEnvelope, OfferEnvelope}
use fatcrab_trading.TradeRsp.{FatCrabTradeRspType}
use fatcrab_trading.Offer.{FatCrabOfferEnvelope}
use fatcrab_trading.Purse.{Bdk}
use fatcrab_trading.Maker
use fatcrab_trading.Maker.Types.{MakerEnv, MakerEffect, MakerEvent, MakerNotif, FatCrabMakerRequest}
use fatcrab_trading.Taker
use fatcrab_trading.Taker.Types.{TakerEnv, TakerEffect, TakerEvent, TakerNotif, FatCrabTakerRequest}

-- The two sides.
pub record Pair : Type 0 where
  pub maker : Maker.World
  pub taker : Taker.World

-- An n3xb crate that does what it is asked to, and receivers that are there.
abbrev pub serving_maker : Bdk → BitcoinCrate → MakerEnv
serving_maker wallet crate = record {
  post_new_order = none;
  cancel_order = none;
  trade_complete = none;
  shutdown = none;
  accept_offer = λ rsp. none;
  reject_offer = λ rsp. none;
  send_peer_message = λ message. none;
  rsp_open = true;
  notif_open = true;
  wallet = wallet;
  crate = crate;
}

abbrev pub serving_taker : Bdk → BitcoinCrate → TakerEnv
serving_taker wallet crate = record {
  take_order = none;
  trade_complete = none;
  shutdown = none;
  send_peer_message = λ message. none;
  rsp_open = true;
  notif_open = true;
  wallet = wallet;
  crate = crate;
}

-- What the other side is sent: the latest message, and the latest accepting answer.
abbrev pub maker_message : List MakerEffect → Option FatCrabPeerMessage
maker_message [] = none
maker_message (MakerEffect.send_peer_message m ∷ out) = some m
maker_message (_ ∷ out) = maker_message out

abbrev pub taker_message : List TakerEffect → Option FatCrabPeerMessage
taker_message [] = none
taker_message (TakerEffect.send_peer_message m ∷ out) = some m
taker_message (_ ∷ out) = taker_message out

abbrev pub answer_in : List MakerEffect → Option TradeResponse
answer_in [] = none
answer_in (MakerEffect.accept_offer rsp ∷ out) = some rsp
answer_in (_ ∷ out) = answer_in out

abbrev pub carried : FatCrabPeerMessage → PeerEnvelope
carried m = record { event_id = "peer"; message = fatcrab_peer_message m }

abbrev to_maker : Option FatCrabPeerMessage → List MakerEvent
to_maker none = []
to_maker (some m) = MakerEvent.notification (MakerNotif.peer (carried m)) ∷ []

abbrev to_taker : Option FatCrabPeerMessage → List TakerEvent
to_taker none = []
to_taker (some m) = TakerEvent.notification (TakerNotif.peer (carried m)) ∷ []

abbrev answer_to_taker : Option TradeResponse → List TakerEvent
answer_to_taker none = []
answer_to_taker (some rsp) =
    TakerEvent.notification (TakerNotif.trade_rsp (record { event_id = "answer"; trade_rsp = rsp }))
    ∷ []

module _ (me : MakerEnv) (te : TakerEnv) where
  -- Events of one side, in order.
  unfoldable pub on_maker : List MakerEvent → Pair → Pair
  on_maker [] p = p
  on_maker (e ∷ events) p =
      on_maker events (record p { maker = final (Maker.Run.handle_event me e p.maker) })

  unfoldable pub on_taker : List TakerEvent → Pair → Pair
  on_taker [] p = p
  on_taker (e ∷ events) p =
      on_taker events (record p { taker = final (Taker.Run.handle_event te e p.taker) })

  -- The order is posted and taken, and the offer reaches the maker, who accepts it; the answer reaches
  -- the taker.
  unfoldable pub agree : OfferEnvelope → Pair → Pair
  unfolding on_maker on_taker
  agree offer p =
      let q =
        on_taker (TakerEvent.request FatCrabTakerRequest.take_order ∷ [])
          (on_maker (MakerEvent.request FatCrabMakerRequest.post_new_order ∷ []) p) in
      let r =
        on_maker
          (MakerEvent.notification (MakerNotif.offer offer)
            ∷ MakerEvent.request (
                FatCrabMakerRequest.trade_response FatCrabTradeRspType.accept
                  (record { pubkey = offer.pubkey; envelope = offer }))
            ∷ [])
          q in
      on_taker (answer_to_taker (answer_in r.maker.out)) r

  -- The side that gives FatCrabs tells of it, and its message reaches the maker, who releases the
  -- bitcoin; that message reaches the taker, and both complete the trade.
  unfoldable pub settle_buy : String → Pair → Pair
  unfolding on_maker on_taker
  settle_buy fatcrab_txid p =
      let q =
        on_taker
          (TakerEvent.request (FatCrabTakerRequest.release_notify_peer (some fatcrab_txid)) ∷ [])
          p in
      let r = on_maker (to_maker (taker_message q.taker.out)) q in
      let s = on_maker (MakerEvent.request (FatCrabMakerRequest.release_notify_peer none) ∷ []) r in
      let t = on_taker (to_taker (maker_message s.maker.out)) s in
      on_taker (TakerEvent.request FatCrabTakerRequest.trade_complete ∷ [])
        (on_maker (MakerEvent.request FatCrabMakerRequest.trade_complete ∷ []) t)

  -- The taker has paid when it got the answer: its message reaches the maker, who gives the FatCrabs and
  -- tells of it; that message reaches the taker, and both complete the trade.
  unfoldable pub settle_sell : String → Pair → Pair
  unfolding on_maker on_taker
  settle_sell fatcrab_txid p =
      let q = on_maker (to_maker (taker_message p.taker.out)) p in
      let r =
        on_maker
          (MakerEvent.request (FatCrabMakerRequest.release_notify_peer (some fatcrab_txid)) ∷ [])
          q in
      let s = on_taker (to_taker (maker_message r.maker.out)) r in
      on_taker (TakerEvent.request FatCrabTakerRequest.trade_complete ∷ [])
        (on_maker (MakerEvent.request FatCrabMakerRequest.trade_complete ∷ []) s)

-- ===== src/Maker.antt =====
-- src/maker/maker.rs: the maker's actor, which serves the requests of its accessors and the
-- notifications of the n3xb maker. A method of the actor is a method here; `rsp_tx.send(..)` is an
-- entry of the log.
pub mod Types
pub mod Buy
pub mod Sell
pub mod Notifications
pub mod Run
pub mod Release
pub mod Funds
pub mod Machine
pub mod Payment
pub mod Isolation
pub mod Orders
pub mod Lifecycle
pub mod Consistency
pub mod Replies
pub mod Saving
pub mod Retry
pub mod Construction
pub mod Restore
pub mod Access
pub mod Replying
pub mod Answers
mod Tests
use fatcrab_trading.Base.{
  ℕ, ⊤, Bool, true, false, String, Option, none, some, List, [], ◌∷◌, is_some, if◌then◌else◌,
}
use fatcrab_trading.Base.Dict.{Uuid}
use fatcrab_trading.Action.{
  Result, ok, err, Action, pure, ◌>>=◌, ◌>>◌, gets, unwrap, Fallible, ret, raise, panic, Outcome,
}
use fatcrab_trading.Error.{
  FatCrabError, simple, no_peer_btc_txid, notif_tx_already_registered, notif_tx_not_registered,
}
use fatcrab_trading.Common.{
  Float, FatCrabPeerMessage, FatCrabPeerEnvelope, PeerEnvelope, downcast_peer_message,
}
use fatcrab_trading.N3xb.{
  TradeResponse, rejected, OfferInvalidReason, cancelled, pending_another, other_specifics,
  OfferEnvelope,
}
use fatcrab_trading.Order.{FatCrabOrder, FatCrabOrderType, buy, sell}
use fatcrab_trading.Offer.{FatCrabOfferEnvelope, validate_n3xb_offer}
use fatcrab_trading.Purse.{Purse}
use fatcrab_trading.Actor.{Ctx, Channel, update_self, emit, send_to, call_n3xb, must, catch, zoom}
use Types.{
  FatCrabMakerState, waiting_for_offers, received_offer, accepted_offer, inbound_btc_notified,
  inbound_fc_notified, trade_cancelled, FatCrabMakerNotif, MakerReply, MakerEffect, MakerEnv,
  FatCrabMakerRequest, MakerNotif, MakerEvent,
}
use Buy.{FatCrabMakerBuyActor}
use Sell.{FatCrabMakerSellActor}

pub data FatCrabMakerInnerActor : Type 0 where
  buy_actor : FatCrabMakerBuyActor → FatCrabMakerInnerActor
  sell_actor : FatCrabMakerSellActor → FatCrabMakerInnerActor

pub record FatCrabMakerActor : Type 0 where
  pub inner : FatCrabMakerInnerActor
  pub trade_uuid : Uuid
  pub notif_tx : Option Channel

abbrev pub World : Type 0
World = Ctx FatCrabMakerActor MakerEffect

abbrev put_buy : FatCrabMakerBuyActor → FatCrabMakerActor → FatCrabMakerActor
put_buy b a = record a { inner = buy_actor b }

abbrev put_sell : FatCrabMakerSellActor → FatCrabMakerActor → FatCrabMakerActor
put_sell s a = record a { inner = sell_actor s }

-- `match self.inner`, over the methods of the two actors.
abbrev pub on_inner :
    {A : Type 0} → Buy.Buy A → Sell.Sell A → FatCrabMakerInnerActor → Action World A
on_inner m n (buy_actor b) = zoom put_buy b m
on_inner m n (sell_actor s) = zoom put_sell s n

abbrev pub by_inner : {A : Type 0} → Buy.Buy A → Sell.Sell A → Action World A
by_inner m n = do inner ← gets (λ c. c.self.inner); on_inner m n inner

abbrev pub reply : MakerEnv → MakerReply → Action World ⊤
reply env r = send_to env.rsp_open (MakerEffect.reply r)

abbrev pub state_of : FatCrabMakerInnerActor → FatCrabMakerState
state_of (buy_actor b) = b.buy_data.store.state
state_of (sell_actor s) = s.sell_data.store.state

abbrev pub state : Action World FatCrabMakerState
state = gets (λ c. state_of c.self.inner)

abbrev pub set_state : FatCrabMakerState → Action World ⊤
set_state state = by_inner (Buy.set_state state) (Sell.set_state state)

inner_new :
    Float
    → MakerEnv
    → FatCrabOrder
    → Option String
    → FatCrabOrderType
    → Action Purse FatCrabMakerInnerActor
inner_new f env order fatcrab_rx_addr FatCrabOrderType.buy = do
  addr ← unwrap fatcrab_rx_addr
  b ← Buy.actor_new f env order addr
  pure (buy_actor b)
inner_new f env order fatcrab_rx_addr FatCrabOrderType.sell = do
  s ← Sell.actor_new env order
  pure (sell_actor s)

-- FatCrabMakerActor::new: the inner actor by the type of the order. A buy order needs the address.
unfoldable pub actor_new :
    Float → MakerEnv → FatCrabOrder → Option String → Action Purse FatCrabMakerActor
unfolding inner_new
actor_new f env order fatcrab_rx_addr = do
  inner ← inner_new f env order fatcrab_rx_addr order.order_type
  pure (record { inner = inner; trade_uuid = order.trade_uuid; notif_tx = none })

unfoldable pub post_new_order : MakerEnv → Action World ⊤
post_new_order env =
    catch (λ e. reply env (MakerReply.state (err e)))
      (do
        call_n3xb MakerEffect.post_new_order env.post_new_order
        reply env (MakerReply.state (ok waiting_for_offers))
        set_state waiting_for_offers)

-- The queries read the inner actor's data.
unfoldable pub get_order_details : MakerEnv → Action World ⊤
get_order_details env = do
  order ←
      by_inner (gets (λ c. c.self.buy_data.store.order)) (gets (λ c. c.self.sell_data.store.order))
  reply env (MakerReply.order_details order)

unfoldable pub get_state : MakerEnv → Action World ⊤
get_state env = do current ← state; reply env (MakerReply.state (ok current))

unfoldable pub get_peer_pubkey : MakerEnv → Action World ⊤
get_peer_pubkey env = do
  pubkey ←
      by_inner (gets (λ c. c.self.buy_data.store.peer_pubkey))
        (gets (λ c. c.self.sell_data.store.peer_pubkey))
  reply env (MakerReply.peer_pubkey pubkey)

unfoldable pub get_peer_btc_txid : MakerEnv → Action World ⊤
get_peer_btc_txid env = do
  txid ←
      by_inner (pure (err (simple no_peer_btc_txid)))
        (gets (λ c. ok c.self.sell_data.store.peer_btc_txid))
  reply env (MakerReply.peer_btc_txid txid)

unfoldable pub query_offers : MakerEnv → Action World ⊤
query_offers env = do
  offers ←
      by_inner (gets (λ c. c.self.buy_data.store.offer_envelopes))
        (gets (λ c. c.self.sell_data.store.offer_envelopes))
  reply env (MakerReply.offers offers)

unfoldable pub query_peer_msg : MakerEnv → Action World ⊤
query_peer_msg env = do
  msg ←
      by_inner (gets (λ c. c.self.buy_data.store.peer_envelope))
        (gets (λ c. c.self.sell_data.store.peer_envelope))
  reply env (MakerReply.peer_msg msg)

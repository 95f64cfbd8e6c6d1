-- ===== src/Taker.antt =====
-- src/taker/taker.rs: the taker's actor, which serves the requests of its accessors and the
-- notifications of the n3xb taker. A method of the actor is a method here; `rsp_tx.send(..)` is an
-- entry of the log.
pub mod Types
pub mod Buy
pub mod Sell
pub mod Notifications
pub mod Run
pub mod Release
pub mod Funds
pub mod Machine
pub mod Payment
pub mod Lifecycle
pub mod Consistency
pub mod Replies
pub mod Saving
pub mod Construction
pub mod Restore
pub mod Access
pub mod Replying
pub mod Answers
mod Tests
use fatcrab_trading.Base.{⊤, String, Option, none, some}
use fatcrab_trading.Base.Dict.{Uuid}
use fatcrab_trading.Action.{Result, ok, err, Action, pure, ◌>>=◌, ◌>>◌, gets, unwrap, Fallible}
use fatcrab_trading.Error.{FatCrabError, simple, no_peer_btc_txid}
use fatcrab_trading.Common.{Float}
use fatcrab_trading.Order.{FatCrabOrderType, FatCrabOrderEnvelope, buy, sell}
use fatcrab_trading.Purse.{Purse}
use fatcrab_trading.Actor.{Ctx, Channel, send_to, call_n3xb, catch, zoom}
use Types.{FatCrabTakerState, submitted_offer, TakerReply, TakerEffect, TakerEnv}
use Buy.{FatCrabTakerBuyActor}
use Sell.{FatCrabTakerSellActor}

pub data FatCrabTakerInnerActor : Type 0 where
  buy_actor : FatCrabTakerBuyActor → FatCrabTakerInnerActor
  sell_actor : FatCrabTakerSellActor → FatCrabTakerInnerActor

pub record FatCrabTakerActor : Type 0 where
  pub inner : FatCrabTakerInnerActor
  pub trade_uuid : Uuid
  pub notif_tx : Option Channel

abbrev pub World : Type 0
World = Ctx FatCrabTakerActor TakerEffect

abbrev put_buy : FatCrabTakerBuyActor → FatCrabTakerActor → FatCrabTakerActor
put_buy b a = record a { inner = buy_actor b }

abbrev put_sell : FatCrabTakerSellActor → FatCrabTakerActor → FatCrabTakerActor
put_sell s a = record a { inner = sell_actor s }

-- `match self.inner`, over the methods of the two actors.
abbrev pub on_inner :
    {A : Type 0} → Buy.Buy A → Sell.Sell A → FatCrabTakerInnerActor → Action World A
on_inner m n (buy_actor b) = zoom put_buy b m
on_inner m n (sell_actor s) = zoom put_sell s n

abbrev pub by_inner : {A : Type 0} → Buy.Buy A → Sell.Sell A → Action World A
by_inner m n = do inner ← gets (λ c. c.self.inner); on_inner m n inner

abbrev pub reply : TakerEnv → TakerReply → Action World ⊤
reply env r = send_to env.rsp_open (TakerEffect.reply r)

abbrev pub state_of : FatCrabTakerInnerActor → FatCrabTakerState
state_of (buy_actor b) = b.buy_data.store.state
state_of (sell_actor s) = s.sell_data.store.state

abbrev pub state : Action World FatCrabTakerState
state = gets (λ c. state_of c.self.inner)

abbrev pub set_state : FatCrabTakerState → Action World ⊤
set_state state = by_inner (Buy.set_state state) (Sell.set_state state)

inner_new :
    Float
    → TakerEnv
    → FatCrabOrderEnvelope
    → Option String
    → FatCrabOrderType
    → Action Purse FatCrabTakerInnerActor
inner_new f env order_envelope fatcrab_rx_addr FatCrabOrderType.buy = do
  b ← Buy.actor_new env order_envelope
  pure (buy_actor b)
inner_new f env order_envelope fatcrab_rx_addr FatCrabOrderType.sell = do
  addr ← unwrap fatcrab_rx_addr
  s ← Sell.actor_new f env order_envelope addr
  pure (sell_actor s)

-- FatCrabTakerActor::new: the inner actor by the type of the order. A sell order needs the address.
unfoldable pub actor_new :
    Float → TakerEnv → FatCrabOrderEnvelope → Option String → Action Purse FatCrabTakerActor
unfolding inner_new
actor_new f env order_envelope fatcrab_rx_addr = do
  let order = order_envelope.order
  inner ← inner_new f env order_envelope fatcrab_rx_addr order.order_type
  pure (record { inner = inner; trade_uuid = order.trade_uuid; notif_tx = none })

-- The reply goes out before the state is set.
unfoldable pub take_order : TakerEnv → Action World ⊤
take_order env =
    catch (λ e. reply env (TakerReply.state (err e)))
      (do
        call_n3xb TakerEffect.take_order env.take_order
        reply env (TakerReply.state (ok submitted_offer))
        set_state submitted_offer)

-- The queries read the inner actor's data.
unfoldable pub get_order_details : TakerEnv → Action World ⊤
get_order_details env = do
  order_envelope ←
      by_inner (gets (λ c. c.self.buy_data.store.order_envelope))
        (gets (λ c. c.self.sell_data.store.order_envelope))
  reply env (TakerReply.order_details order_envelope)

unfoldable pub get_state : TakerEnv → Action World ⊤
get_state env = do current ← state; reply env (TakerReply.state (ok current))

unfoldable pub get_peer_btc_txid : TakerEnv → Action World ⊤
get_peer_btc_txid env = do
  txid ←
      by_inner (gets (λ c. ok c.self.buy_data.store.peer_btc_txid))
        (pure (err (simple no_peer_btc_txid)))
  reply env (TakerReply.peer_btc_txid txid)

unfoldable pub query_peer_msg : TakerEnv → Action World ⊤
query_peer_msg env = do
  msg ←
      by_inner (gets (λ c. c.self.buy_data.store.peer_envelope))
        (gets (λ c. c.self.sell_data.store.peer_envelope))
  reply env (TakerReply.peer_msg msg)

-- ===== src/Taker/Sell.antt =====
-- src/taker/data.rs and src/taker/taker.rs: the taker of a sell order, who pays bitcoin that the
-- purse has set aside and receives FatCrabs. An accepted offer is paid at once.
use fatcrab_trading.Base.{⊤, true, String, Option, none, some}
use fatcrab_trading.Base.Dict.{Uuid}
use fatcrab_trading.Action.{
  Result, ok, err, Action, pure, ◌>>=◌, ◌>>◌, gets, unwrap, or_throw, attempt, Fallible,
}
use fatcrab_trading.Error.{
  FatCrabError, simple, btc_address_not_received, address_not_on_network, unable_to_send_funds,
  unable_to_send_peer_message, seller_keeps_no_trade_rsp, buyer_has_no_peer_btc_txid,
}
use fatcrab_trading.Common.{Network, Address, Float, FatCrabPeerMessage, FatCrabPeerEnvelope}
use fatcrab_trading.N3xb.{TradeResponseEnvelope}
use fatcrab_trading.Order.{FatCrabOrderEnvelope}
use fatcrab_trading.TradeRsp.{FatCrabTradeRsp}
use fatcrab_trading.Purse.{Purse, allocate_funds, free_funds, send_funds}
use fatcrab_trading.Actor.{
  Ctx, Persisted, written, queued, Channel, update_self, send_to, call_purse, call_n3xb, must,
  catch, rethrow,
}
use fatcrab_trading.Taker.Types.{
  FatCrabTakerState, new, offer_accepted, offer_rejected, notified_outbound, trade_completed,
  FatCrabTakerNotif, TakerReply, TakerEffect, TakerEnv,
}

pub record FatCrabTakerSellDataStore : Type 0 where
  pub order_envelope : FatCrabOrderEnvelope
  pub state : FatCrabTakerState
  pub fatcrab_rx_addr : String
  pub btc_funds_id : Uuid
  pub peer_btc_addr : Option String
  pub peer_envelope : Option FatCrabPeerEnvelope

-- The source's struct has no network of its own; `network` here is the purse's and is not read.
abbrev pub FatCrabTakerSellData : Type 0
FatCrabTakerSellData = Persisted FatCrabTakerSellDataStore

pub record FatCrabTakerSellActor : Type 0 where
  pub trade_uuid : Uuid
  pub sell_data : FatCrabTakerSellData
  pub notif_tx : Option Channel

abbrev pub Sell : Type 0 → Type 0
Sell A = Action (Ctx FatCrabTakerSellActor TakerEffect) A

-- FatCrabTakerSellData::new: the store of a new trade, queued for saving.
unfoldable pub data_new :
    FatCrabOrderEnvelope → Network → String → Uuid → Option String → FatCrabTakerSellData
data_new order_envelope network fatcrab_rx_addr btc_funds_id peer_btc_addr = record {
  store = record {
    order_envelope = order_envelope;
    state = new;
    fatcrab_rx_addr = fatcrab_rx_addr;
    btc_funds_id = btc_funds_id;
    peer_btc_addr = peer_btc_addr;
    peer_envelope = none;
  };
  is_queued = true;
  network = network;
}

-- A write of the store, and then `persister.queue()`.
abbrev write_store : (FatCrabTakerSellDataStore → FatCrabTakerSellDataStore) → Sell ⊤
write_store f = do
  update_self (λ a. record a { sell_data = written f a.sell_data })
  update_self (λ a. record a { sell_data = queued a.sell_data })

abbrev read_store : {A : Type 0} → (FatCrabTakerSellDataStore → A) → Sell A
read_store f = gets (λ c. f c.self.sell_data.store)

abbrev pub set_state : FatCrabTakerState → Sell ⊤
set_state state = write_store (λ s. record s { state = state })

abbrev pub set_peer_btc_addr : String → Sell ⊤
set_peer_btc_addr addr = write_store (λ s. record s { peer_btc_addr = some addr })

abbrev pub set_peer_envelope : FatCrabPeerEnvelope → Sell ⊤
set_peer_envelope envelope = write_store (λ s. record s { peer_envelope = some envelope })

abbrev reply_state : TakerEnv → Result FatCrabTakerState FatCrabError → Sell ⊤
reply_state env r = send_to env.rsp_open (TakerEffect.reply (TakerReply.state r))

-- FatCrabTakerSellActor::new, on the purse: the sats of the order are set aside first.
unfoldable pub actor_new :
    Float → TakerEnv → FatCrabOrderEnvelope → String → Action Purse FatCrabTakerSellActor
unfolding data_new
actor_new f env order_envelope fatcrab_rx_addr = do
  let order = order_envelope.order
  btc_funds_id ← allocate_funds env.wallet (f.to_u64 (f.mul order.amount order.price))
  network ← gets (λ p. p.network)
  pure (record {
    trade_uuid = order.trade_uuid;
    sell_data = data_new order_envelope network fatcrab_rx_addr btc_funds_id none;
    notif_tx = none;
  })

-- `release_btc_notify_peer` from `send_funds` on.
unfoldable pub pay_and_notify : TakerEnv → Address → Sell ⊤
pay_and_notify env btc_addr = do
  uuid ← gets (λ c. c.self.trade_uuid)
  funds_id ← read_store (λ s. s.btc_funds_id)
  txid ←
      rethrow (λ e. simple (unable_to_send_funds uuid e))
        (call_purse (send_funds env.wallet funds_id btc_addr))
  rx_addr ← read_store (λ s. s.fatcrab_rx_addr)
  let message : FatCrabPeerMessage = record { receive_address = rx_addr; txid = txid }
  rethrow (λ e. simple (unable_to_send_peer_message uuid e))
      (call_n3xb (TakerEffect.send_peer_message message) (env.send_peer_message message))

-- It panics where the stored text is no address.
unfoldable pub release_btc_notify_peer : TakerEnv → Sell ⊤
release_btc_notify_peer env = do
  uuid ← gets (λ c. c.self.trade_uuid)
  stored ← read_store (λ s. s.peer_btc_addr)
  peer_btc_addr ← or_throw stored (simple (btc_address_not_received uuid))
  address ← unwrap (env.crate.address_from_str peer_btc_addr)
  network ← gets (λ c. c.purse.network)
  btc_addr ←
      or_throw (env.crate.require_network address network)
        (simple (address_not_on_network uuid peer_btc_addr))
  pay_and_notify env btc_addr

notify_channel : TakerEnv → FatCrabTradeRsp → TradeResponseEnvelope → Option Channel → Sell ⊤
notify_channel env trade_rsp n3xb_envelope none = pure tt
notify_channel env trade_rsp n3xb_envelope (some tx) = do
  state ← read_store (λ s. s.state)
  send_to env.notif_open (
      TakerEffect.notify tx (
        FatCrabTakerNotif.trade_rsp state
          (record { trade_rsp = trade_rsp; envelope = n3xb_envelope })))

unfoldable pub notify_trade_rsp : TakerEnv → FatCrabTradeRsp → TradeResponseEnvelope → Sell ⊤
unfolding notify_channel
notify_trade_rsp env trade_rsp n3xb_envelope = do
  notif_tx ← gets (λ c. c.self.notif_tx)
  notify_channel env trade_rsp n3xb_envelope notif_tx

-- The state advances if the payment went out.
advance : Fallible ⊤ → Sell ⊤
advance (ok x) = set_state notified_outbound
advance (err e) = pure tt

unfoldable pub handle_trade_rsp_notif : TakerEnv → FatCrabTradeRsp → TradeResponseEnvelope → Sell ⊤
unfolding notify_trade_rsp advance
handle_trade_rsp_notif env (FatCrabTradeRsp.accept receive_address) n3xb_envelope = do
  set_peer_btc_addr receive_address
  set_state offer_accepted
  released ← attempt (release_btc_notify_peer env)
  advance released
  notify_trade_rsp env (FatCrabTradeRsp.accept receive_address) n3xb_envelope
handle_trade_rsp_notif env FatCrabTradeRsp.reject n3xb_envelope = do
  funds_id ← read_store (λ s. s.btc_funds_id)
  must (call_purse (free_funds funds_id))
  set_state offer_rejected
  notify_trade_rsp env FatCrabTradeRsp.reject n3xb_envelope

unfoldable pub handle_peer_notif : FatCrabPeerMessage → Sell ⊤
handle_peer_notif message = pure tt

unfoldable pub query_trade_rsp : TakerEnv → Sell ⊤
query_trade_rsp env = do
  uuid ← gets (λ c. c.self.trade_uuid)
  send_to env.rsp_open
      (TakerEffect.reply (TakerReply.trade_rsp (err (simple (seller_keeps_no_trade_rsp uuid)))))

unfoldable pub release_notify_peer : TakerEnv → Sell ⊤
release_notify_peer env =
    catch (λ e. reply_state env (err e))
      (do
        release_btc_notify_peer env
        set_state notified_outbound
        reply_state env (ok notified_outbound))

unfoldable pub check_btc_tx_confirmation : TakerEnv → Sell ⊤
check_btc_tx_confirmation env = do
  uuid ← gets (λ c. c.self.trade_uuid)
  send_to env.rsp_open (
      TakerEffect.reply (TakerReply.confirmations (err (simple (buyer_has_no_peer_btc_txid uuid)))))

unfoldable pub trade_complete : TakerEnv → Sell ⊤
trade_complete env =
    catch (λ e. reply_state env (err e))
      (do
        set_state trade_completed
        call_n3xb TakerEffect.trade_complete env.trade_complete
        reply_state env (ok trade_completed))

-- ===== src/Taker/Buy.antt =====
-- src/taker/data.rs and src/taker/taker.rs: the taker of a buy order, who pays FatCrabs and receives
-- bitcoin. No funds are set aside for it.
use fatcrab_trading.Base.{ℕ, ⊤, true, String, Option, none, some}
use fatcrab_trading.Base.Dict.{Uuid}
use fatcrab_trading.Action.{Result, ok, err, Action, pure, ◌>>=◌, ◌>>◌, gets, or_throw}
use fatcrab_trading.Error.{FatCrabError, simple, btc_txid_not_received}
use fatcrab_trading.Common.{
  Network, Address, Txid, parse_address, FatCrabPeerMessage, FatCrabPeerEnvelope,
}
use fatcrab_trading.N3xb.{TradeResponseEnvelope}
use fatcrab_trading.Order.{FatCrabOrderEnvelope}
use fatcrab_trading.TradeRsp.{FatCrabTradeRsp, FatCrabTradeRspEnvelope}
use fatcrab_trading.Purse.{Purse, get_rx_address, get_tx_conf}
use fatcrab_trading.Actor.{
  Ctx, Persisted, written, queued, Channel, update_self, send_to, call_purse, call_n3xb, must,
  catch,
}
use fatcrab_trading.Taker.Types.{
  FatCrabTakerState, new, offer_accepted, offer_rejected, notified_outbound, trade_completed,
  FatCrabTakerNotif, TakerReply, TakerEffect, TakerEnv,
}

pub record FatCrabTakerBuyDataStore : Type 0 where
  pub order_envelope : FatCrabOrderEnvelope
  pub state : FatCrabTakerState
  pub btc_rx_addr : String
  pub peer_btc_txid : Option Txid
  pub trade_rsp_envelope : Option FatCrabTradeRspEnvelope
  pub peer_envelope : Option FatCrabPeerEnvelope

abbrev pub FatCrabTakerBuyData : Type 0
FatCrabTakerBuyData = Persisted FatCrabTakerBuyDataStore

pub record FatCrabTakerBuyActor : Type 0 where
  pub trade_uuid : Uuid
  pub buy_data : FatCrabTakerBuyData
  pub notif_tx : Option Channel

abbrev pub Buy : Type 0 → Type 0
Buy A = Action (Ctx FatCrabTakerBuyActor TakerEffect) A

-- FatCrabTakerBuyData::new: the store of a new trade, queued for saving.
unfoldable pub data_new : FatCrabOrderEnvelope → Network → Address → FatCrabTakerBuyData
data_new order_envelope network btc_rx_addr = record {
  store = record {
    order_envelope = order_envelope;
    state = new;
    btc_rx_addr = btc_rx_addr;
    peer_btc_txid = none;
    trade_rsp_envelope = none;
    peer_envelope = none;
  };
  is_queued = true;
  network = network;
}

-- A write of the store, and then `persister.queue()`.
abbrev write_store : (FatCrabTakerBuyDataStore → FatCrabTakerBuyDataStore) → Buy ⊤
write_store f = do
  update_self (λ a. record a { buy_data = written f a.buy_data })
  update_self (λ a. record a { buy_data = queued a.buy_data })

abbrev read_store : {A : Type 0} → (FatCrabTakerBuyDataStore → A) → Buy A
read_store f = gets (λ c. f c.self.buy_data.store)

abbrev pub set_state : FatCrabTakerState → Buy ⊤
set_state state = write_store (λ s. record s { state = state })

abbrev pub set_peer_btc_txid : Txid → Buy ⊤
set_peer_btc_txid txid = write_store (λ s. record s { peer_btc_txid = some txid })

abbrev pub set_trade_rsp_envelope : FatCrabTradeRspEnvelope → Buy ⊤
set_trade_rsp_envelope envelope = write_store (λ s. record s { trade_rsp_envelope = some envelope })

abbrev pub set_peer_envelope : FatCrabPeerEnvelope → Buy ⊤
set_peer_envelope envelope = write_store (λ s. record s { peer_envelope = some envelope })

-- It panics where the stored text is no address of the network.
btc_rx_addr : TakerEnv → Buy Address
unfolding parse_address
btc_rx_addr env = do
  network ← gets (λ c. c.self.buy_data.network)
  addr_string ← read_store (λ s. s.btc_rx_addr)
  parse_address env.crate addr_string network

abbrev reply_state : TakerEnv → Result FatCrabTakerState FatCrabError → Buy ⊤
reply_state env r = send_to env.rsp_open (TakerEffect.reply (TakerReply.state r))

-- FatCrabTakerBuyActor::new, on the purse; it panics where the wallet has no address.
unfoldable pub actor_new : TakerEnv → FatCrabOrderEnvelope → Action Purse FatCrabTakerBuyActor
unfolding data_new
actor_new env order_envelope = do
  btc_rx_addr ← must (get_rx_address env.wallet)
  network ← gets (λ p. p.network)
  pure (record {
    trade_uuid = order_envelope.order.trade_uuid;
    buy_data = data_new order_envelope network btc_rx_addr;
    notif_tx = none;
  })

answered_state : FatCrabTradeRsp → FatCrabTakerState
answered_state (FatCrabTradeRsp.accept receive_address) = offer_accepted
answered_state FatCrabTradeRsp.reject = offer_rejected

keep_trade_rsp : TakerEnv → FatCrabTradeRsp → TradeResponseEnvelope → Option Channel → Buy ⊤
unfolding answered_state
keep_trade_rsp env trade_rsp n3xb_envelope none = pure tt
keep_trade_rsp env trade_rsp n3xb_envelope (some tx) = do
  let envelope : FatCrabTradeRspEnvelope = record {
    trade_rsp = trade_rsp;
    envelope = n3xb_envelope;
  }
  set_trade_rsp_envelope envelope
  set_state (answered_state trade_rsp)
  state ← read_store (λ s. s.state)
  send_to env.notif_open (TakerEffect.notify tx (FatCrabTakerNotif.trade_rsp state envelope))

-- The answer is dropped where the application has no channel registered.
unfoldable pub handle_trade_rsp_notif : TakerEnv → FatCrabTradeRsp → TradeResponseEnvelope → Buy ⊤
unfolding keep_trade_rsp
handle_trade_rsp_notif env trade_rsp n3xb_envelope = do
  notif_tx ← gets (λ c. c.self.notif_tx)
  keep_trade_rsp env trade_rsp n3xb_envelope notif_tx

unfoldable pub query_trade_rsp : TakerEnv → Buy ⊤
query_trade_rsp env = do
  trade_rsp ← read_store (λ s. s.trade_rsp_envelope)
  send_to env.rsp_open (TakerEffect.reply (TakerReply.trade_rsp (ok trade_rsp)))

unfoldable pub notify_peer : TakerEnv → String → Buy ⊤
unfolding btc_rx_addr
notify_peer env txid =
    catch (λ e. reply_state env (err e))
      (do
        addr ← btc_rx_addr env
        let message : FatCrabPeerMessage = record { receive_address = addr; txid = txid }
        call_n3xb (TakerEffect.send_peer_message message) (env.send_peer_message message)
        set_state notified_outbound
        reply_state env (ok notified_outbound))

keep_txid : Option Txid → Buy ⊤
keep_txid none = pure tt
keep_txid (some txid) = set_peer_btc_txid txid

-- A text that is no transaction id is passed over.
unfoldable pub handle_peer_notif : TakerEnv → FatCrabPeerMessage → Buy ⊤
unfolding keep_txid
handle_peer_notif env message = keep_txid (env.crate.txid_from_str message.txid)

abbrev reply_confirmations : TakerEnv → Result ℕ FatCrabError → Buy ⊤
reply_confirmations env r = send_to env.rsp_open (TakerEffect.reply (TakerReply.confirmations r))

unfoldable pub check_btc_tx_confirmation : TakerEnv → Buy ⊤
check_btc_tx_confirmation env =
    catch (λ e. reply_confirmations env (err e))
      (do
        uuid ← gets (λ c. c.self.trade_uuid)
        stored ← read_store (λ s. s.peer_btc_txid)
        txid ← or_throw stored (simple (btc_txid_not_received uuid))
        tx_conf ← call_purse (get_tx_conf env.wallet txid)
        reply_confirmations env (ok tx_conf))

unfoldable pub trade_complete : TakerEnv → Buy ⊤
trade_complete env =
    catch (λ e. reply_state env (err e))
      (do
        set_state trade_completed
        call_n3xb TakerEffect.trade_complete env.trade_complete
        reply_state env (ok trade_completed))

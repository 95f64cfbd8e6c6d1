-- ===== src/Taker/Types.antt =====
-- src/taker/state.rs and the types of src/taker/taker.rs: states, requests, replies, notifications,
-- the calls of the n3xb taker, and the answers that one event gets from outside.
use fatcrab_trading.Base.{ℕ, ⊤, Bool, String, Option}
use fatcrab_trading.Action.{Fallible}
use fatcrab_trading.Error.{ExternalError}
use fatcrab_trading.Common.{BitcoinCrate, FatCrabPeerMessage, FatCrabPeerEnvelope, PeerEnvelope}
use fatcrab_trading.N3xb.{TradeResponseEnvelope}
use fatcrab_trading.Order.{FatCrabOrderEnvelope}
use fatcrab_trading.TradeRsp.{FatCrabTradeRspEnvelope}
use fatcrab_trading.Purse.{Bdk}
use fatcrab_trading.Actor.{Channel}

pub data FatCrabTakerState : Type 0 where
  new submitted_offer offer_accepted offer_rejected : FatCrabTakerState
  notified_outbound inbound_btc_notified inbound_fc_notified trade_completed : FatCrabTakerState

pub data FatCrabTakerNotif : Type 0 where
  trade_rsp : FatCrabTakerState → FatCrabTradeRspEnvelope → FatCrabTakerNotif
  peer : FatCrabTakerState → FatCrabPeerEnvelope → FatCrabTakerNotif

pub data TakerReply : Type 0 where
  state : Fallible FatCrabTakerState → TakerReply
  order_details : FatCrabOrderEnvelope → TakerReply
  peer_btc_txid : Fallible (Option String) → TakerReply
  trade_rsp : Fallible (Option FatCrabTradeRspEnvelope) → TakerReply
  peer_msg : Option FatCrabPeerEnvelope → TakerReply
  confirmations : Fallible ℕ → TakerReply
  done : Fallible ⊤ → TakerReply

-- What the taker tells the outside. `terminate` closes the persister of the data store.
pub data TakerEffect : Type 0 where
  take_order trade_complete terminate shutdown : TakerEffect
  send_peer_message : FatCrabPeerMessage → TakerEffect
  reply : TakerReply → TakerEffect
  notify : Channel → FatCrabTakerNotif → TakerEffect

-- The answers of the n3xb taker, of the wallet and of the `bitcoin` crate while one event is
-- handled, and whether the receivers of the reply and of the notification are still there.
pub record TakerEnv : Type 0 where
  pub take_order : Option ExternalError
  pub trade_complete : Option ExternalError
  pub shutdown : Option ExternalError
  pub send_peer_message : FatCrabPeerMessage → Option ExternalError
  pub rsp_open : Bool
  pub notif_open : Bool
  pub wallet : Bdk
  pub crate : BitcoinCrate

pub data FatCrabTakerRequest : Type 0 where
  take_order get_state get_order_details get_peer_btc_txid query_trade_rsp query_peer_msg
        check_btc_tx_conf trade_complete unregister_notif_tx shutdown :
      FatCrabTakerRequest
  release_notify_peer : Option String → FatCrabTakerRequest
  register_notif_tx : Channel → FatCrabTakerRequest

-- `TakerNotif` of the n3xb crate, or the error that its channel delivers.
pub data TakerNotif : Type 0 where
  trade_rsp : TradeResponseEnvelope → TakerNotif
  peer : PeerEnvelope → TakerNotif
  failed : ExternalError → TakerNotif

pub data TakerEvent : Type 0 where
  request : FatCrabTakerRequest → TakerEvent
  notification : TakerNotif → TakerEvent

-- ===== src/Maker/Types.antt =====
-- src/maker/state.rs and the types of src/maker/maker.rs: states, requests, replies, notifications,
-- the calls of the n3xb maker, and the answers that one event gets from outside.
use fatcrab_trading.Base.{ℕ, ⊤, Bool, String, Option, List}
use fatcrab_trading.Action.{Fallible}
use fatcrab_trading.Error.{ExternalError}
use fatcrab_trading.Common.{BitcoinCrate, FatCrabPeerMessage, FatCrabPeerEnvelope, PeerEnvelope}
use fatcrab_trading.N3xb.{TradeResponse, OfferEnvelope}
use fatcrab_trading.Order.{FatCrabOrder}
use fatcrab_trading.Offer.{FatCrabOfferEnvelope}
use fatcrab_trading.TradeRsp.{FatCrabTradeRspType}
use fatcrab_trading.Purse.{Bdk}
use fatcrab_trading.Actor.{Channel}

pub data FatCrabMakerState : Type 0 where
  new waiting_for_offers received_offer accepted_offer : FatCrabMakerState
  inbound_btc_notified inbound_fc_notified notified_outbound : FatCrabMakerState
  trade_completed trade_cancelled : FatCrabMakerState

pub data FatCrabMakerNotif : Type 0 where
  offer : FatCrabMakerState → FatCrabOfferEnvelope → FatCrabMakerNotif
  peer : FatCrabMakerState → FatCrabPeerEnvelope → FatCrabMakerNotif

pub data MakerReply : Type 0 where
  state : Fallible FatCrabMakerState → MakerReply
  order_details : FatCrabOrder → MakerReply
  peer_pubkey : Option String → MakerReply
  peer_btc_txid : Fallible (Option String) → MakerReply
  offers : List FatCrabOfferEnvelope → MakerReply
  peer_msg : Option FatCrabPeerEnvelope → MakerReply
  confirmations : Fallible ℕ → MakerReply
  done : Fallible ⊤ → MakerReply

-- What the maker tells the outside. `terminate` closes the persister of the data store.
pub data MakerEffect : Type 0 where
  post_new_order cancel_order trade_complete terminate shutdown : MakerEffect
  accept_offer reject_offer : TradeResponse → MakerEffect
  send_peer_message : FatCrabPeerMessage → MakerEffect
  reply : MakerReply → MakerEffect
  notify : Channel → FatCrabMakerNotif → MakerEffect

-- The answers of the n3xb maker, of the wallet and of the `bitcoin` crate while one event is
-- handled, and whether the receivers of the reply and of the notification are still there.
pub record MakerEnv : Type 0 where
  pub post_new_order : Option ExternalError
  pub cancel_order : Option ExternalError
  pub trade_complete : Option ExternalError
  pub shutdown : Option ExternalError
  pub accept_offer : TradeResponse → Option ExternalError
  pub reject_offer : TradeResponse → Option ExternalError
  pub send_peer_message : FatCrabPeerMessage → Option ExternalError
  pub rsp_open : Bool
  pub notif_open : Bool
  pub wallet : Bdk
  pub crate : BitcoinCrate

pub data FatCrabMakerRequest : Type 0 where
  post_new_order get_state get_order_details get_peer_pubkey get_peer_btc_txid query_offers
        query_peer_msg cancel_order check_btc_tx_conf trade_complete unregister_notif_tx shutdown :
      FatCrabMakerRequest
  trade_response : FatCrabTradeRspType → FatCrabOfferEnvelope → FatCrabMakerRequest
  release_notify_peer : Option String → FatCrabMakerRequest
  register_notif_tx : Channel → FatCrabMakerRequest

-- `MakerNotif` of the n3xb crate, or the error that its channel delivers.
pub data MakerNotif : Type 0 where
  offer : OfferEnvelope → MakerNotif
  peer : PeerEnvelope → MakerNotif
  failed : ExternalError → MakerNotif

pub data MakerEvent : Type 0 where
  request : FatCrabMakerRequest → MakerEvent
  notification : MakerNotif → MakerEvent

-- ===== src/Maker/Sell.antt =====
-- src/maker/data.rs and src/maker/maker.rs: the maker of a sell order, who receives bitcoin and pays
-- FatCrabs. No funds are set aside for it.
use fatcrab_trading.Base.{
  ℕ, ⊤, Bool, true, false, not, String, Option, none, some, List, [], ◌∷◌, ◌++◌,
}
use fatcrab_trading.Base.Dict.{Uuid}
use fatcrab_trading.Action.{Result, ok, err, Action, pure, ◌>>=◌, ◌>>◌, gets, throw_if, or_throw}
use fatcrab_trading.Error.{FatCrabError, simple, cannot_cancel_order, btc_txid_not_received}
use fatcrab_trading.Common.{
  Network, Address, Txid, parse_address, FatCrabPeerMessage, FatCrabPeerEnvelope,
}
use fatcrab_trading.Order.{FatCrabOrder}
use fatcrab_trading.Offer.{FatCrabOfferEnvelope}
use fatcrab_trading.TradeRsp.{FatCrabTradeRspType}
use fatcrab_trading.Purse.{Purse, get_rx_address, get_tx_conf}
use fatcrab_trading.Actor.{
  Ctx, Persisted, written, queued, Channel, update_self, send_to, call_purse, call_n3xb, must,
  catch,
}
use fatcrab_trading.Maker.Types.{
  FatCrabMakerState, new, accepted_offer, notified_outbound, trade_completed, trade_cancelled,
  MakerReply, MakerEffect, MakerEnv,
}
use fatcrab_trading.Maker.Buy.{can_cancel, accepting_rsp, rejecting_rsp}

pub record FatCrabMakerSellDataStore : Type 0 where
  pub order : FatCrabOrder
  pub state : FatCrabMakerState
  pub peer_pubkey : Option String
  pub btc_rx_addr : String
  pub peer_btc_txid : Option Txid
  pub offer_envelopes : List FatCrabOfferEnvelope
  pub peer_envelope : Option FatCrabPeerEnvelope

abbrev pub FatCrabMakerSellData : Type 0
FatCrabMakerSellData = Persisted FatCrabMakerSellDataStore

pub record FatCrabMakerSellActor : Type 0 where
  pub trade_uuid : Uuid
  pub sell_data : FatCrabMakerSellData
  pub notif_tx : Option Channel

abbrev pub Sell : Type 0 → Type 0
Sell A = Action (Ctx FatCrabMakerSellActor MakerEffect) A

-- FatCrabMakerSellData::new: the store of a new trade, queued for saving.
unfoldable pub data_new : FatCrabOrder → Network → Address → FatCrabMakerSellData
data_new order network btc_rx_addr = record {
  store = record {
    order = order;
    state = new;
    peer_pubkey = none;
    btc_rx_addr = btc_rx_addr;
    peer_btc_txid = none;
    offer_envelopes = [];
    peer_envelope = none;
  };
  is_queued = true;
  network = network;
}

-- A write of the store, and then `persister.queue()`.
abbrev write_store : (FatCrabMakerSellDataStore → FatCrabMakerSellDataStore) → Sell ⊤
write_store f = do
  update_self (λ a. record a { sell_data = written f a.sell_data })
  update_self (λ a. record a { sell_data = queued a.sell_data })

abbrev read_store : {A : Type 0} → (FatCrabMakerSellDataStore → A) → Sell A
read_store f = gets (λ c. f c.self.sell_data.store)

abbrev pub set_state : FatCrabMakerState → Sell ⊤
set_state state = write_store (λ s. record s { state = state })

abbrev pub set_peer_pubkey : String → Sell ⊤
set_peer_pubkey pubkey = write_store (λ s. record s { peer_pubkey = some pubkey })

abbrev pub set_peer_btc_txid : Txid → Sell ⊤
set_peer_btc_txid txid = write_store (λ s. record s { peer_btc_txid = some txid })

abbrev pub insert_offer_envelope : FatCrabOfferEnvelope → Sell ⊤
insert_offer_envelope envelope =
    write_store (λ s. record s { offer_envelopes = s.offer_envelopes ++ (envelope ∷ []) })

abbrev pub set_peer_envelope : FatCrabPeerEnvelope → Sell ⊤
set_peer_envelope envelope = write_store (λ s. record s { peer_envelope = some envelope })

-- It panics where the stored text is no address of the network.
btc_rx_addr : MakerEnv → Sell Address
unfolding parse_address
btc_rx_addr env = do
  network ← gets (λ c. c.self.sell_data.network)
  addr_string ← read_store (λ s. s.btc_rx_addr)
  parse_address env.crate addr_string network

abbrev reply_state : MakerEnv → Result FatCrabMakerState FatCrabError → Sell ⊤
reply_state env r = send_to env.rsp_open (MakerEffect.reply (MakerReply.state r))

-- FatCrabMakerSellActor::new, on the purse; it panics where the wallet has no address.
unfoldable pub actor_new : MakerEnv → FatCrabOrder → Action Purse FatCrabMakerSellActor
unfolding data_new
actor_new env order = do
  btc_rx_addr ← must (get_rx_address env.wallet)
  network ← gets (λ p. p.network)
  pure (record {
    trade_uuid = order.trade_uuid;
    sell_data = data_new order network btc_rx_addr;
    notif_tx = none;
  })

unfoldable pub cancel_order : MakerEnv → Sell ⊤
unfolding can_cancel
cancel_order env =
    catch (λ e. reply_state env (err e))
      (do
        state ← read_store (λ s. s.state)
        uuid ← gets (λ c. c.self.trade_uuid)
        throw_if (not (can_cancel state)) (simple (cannot_cancel_order uuid))
        call_n3xb MakerEffect.cancel_order env.cancel_order
        set_state trade_cancelled
        reply_state env (ok trade_cancelled))

unfoldable pub trade_response : MakerEnv → FatCrabTradeRspType → FatCrabOfferEnvelope → Sell ⊤
unfolding btc_rx_addr
trade_response env FatCrabTradeRspType.accept offer = do
  addr ← btc_rx_addr env
  let rsp = accepting_rsp offer addr
  must (call_n3xb (MakerEffect.accept_offer rsp) (env.accept_offer rsp))
  set_peer_pubkey offer.pubkey
  set_state accepted_offer
  reply_state env (ok accepted_offer)
trade_response env FatCrabTradeRspType.reject offer = do
  let rsp = rejecting_rsp offer
  must (call_n3xb (MakerEffect.reject_offer rsp) (env.reject_offer rsp))
  state ← read_store (λ s. s.state)
  reply_state env (ok state)

keep_txid : Option Txid → Sell Bool
keep_txid none = pure true
keep_txid (some txid) = do set_peer_btc_txid txid; pure false

-- `true` if the peer's text is no transaction id, so that the message is dropped.
unfoldable pub handle_peer_notif : MakerEnv → FatCrabPeerMessage → Sell Bool
unfolding keep_txid
handle_peer_notif env message = keep_txid (env.crate.txid_from_str message.txid)

abbrev reply_confirmations : MakerEnv → Result ℕ FatCrabError → Sell ⊤
reply_confirmations env r = send_to env.rsp_open (MakerEffect.reply (MakerReply.confirmations r))

unfoldable pub check_btc_tx_confirmation : MakerEnv → Sell ⊤
check_btc_tx_confirmation env =
    catch (λ e. reply_confirmations env (err e))
      (do
        uuid ← gets (λ c. c.self.trade_uuid)
        stored ← read_store (λ s. s.peer_btc_txid)
        txid ← or_throw stored (simple (btc_txid_not_received uuid))
        tx_conf ← call_purse (get_tx_conf env.wallet txid)
        reply_confirmations env (ok tx_conf))

unfoldable pub notify_peer : MakerEnv → String → Sell ⊤
unfolding btc_rx_addr
notify_peer env txid =
    catch (λ e. reply_state env (err e))
      (do
        addr ← btc_rx_addr env
        let message : FatCrabPeerMessage = record { receive_address = addr; txid = txid }
        call_n3xb (MakerEffect.send_peer_message message) (env.send_peer_message message)
        reply_state env (ok notified_outbound)
        set_state notified_outbound)

unfoldable pub trade_complete : MakerEnv → Sell ⊤
trade_complete env =
    catch (λ e. reply_state env (err e))
      (do
        set_state trade_completed
        call_n3xb MakerEffect.trade_complete env.trade_complete
        reply_state env (ok trade_completed))

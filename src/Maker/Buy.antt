-- ===== src/Maker/Buy.antt =====
-- src/maker/data.rs and src/maker/maker.rs: the maker of a buy order, who pays bitcoin that the
-- purse has set aside and receives FatCrabs.
use fatcrab_trading.Base.{
  ⊤, Bool, true, false, not, String, Option, none, some, List, [], ◌∷◌, ◌++◌,
}
use fatcrab_trading.Base.Dict.{Uuid}
use fatcrab_trading.Action.{
  Result, ok, err, Action, pure, ◌>>=◌, ◌>>◌, gets, unwrap, or_throw, throw_if,
}
use fatcrab_trading.Error.{
  FatCrabError, simple, cannot_cancel_order, btc_address_not_received, buyer_has_no_peer_btc_txid,
}
use fatcrab_trading.Common.{
  Network, Address, Float, BitcoinCrate, parse_address, FatCrabPeerMessage, FatCrabPeerEnvelope,
}
use fatcrab_trading.N3xb.{
  TradeResponse, accepted, rejected, trade_engine_specific, fatcrab_make_trade_rsp, other_specifics,
}
use fatcrab_trading.Order.{FatCrabOrder}
use fatcrab_trading.Offer.{FatCrabOfferEnvelope}
use fatcrab_trading.TradeRsp.{FatCrabTradeRspType}
use fatcrab_trading.Purse.{Purse, allocate_funds, free_funds, send_funds}
use fatcrab_trading.Actor.{
  Ctx, Persisted, written, queued, Channel, update_self, send_to, call_purse, call_n3xb, must,
  catch,
}
use fatcrab_trading.Maker.Types.{
  FatCrabMakerState, new, waiting_for_offers, received_offer, accepted_offer, notified_outbound,
  trade_completed, trade_cancelled, MakerReply, MakerEffect, MakerEnv,
}

pub record FatCrabMakerBuyDataStore : Type 0 where
  pub order : FatCrabOrder
  pub state : FatCrabMakerState
  pub peer_pubkey : Option String
  pub fatcrab_rx_addr : String
  pub btc_funds_id : Uuid
  pub peer_btc_addr : Option String
  pub offer_envelopes : List FatCrabOfferEnvelope
  pub peer_envelope : Option FatCrabPeerEnvelope

abbrev pub FatCrabMakerBuyData : Type 0
FatCrabMakerBuyData = Persisted FatCrabMakerBuyDataStore

pub record FatCrabMakerBuyActor : Type 0 where
  pub trade_uuid : Uuid
  pub buy_data : FatCrabMakerBuyData
  pub notif_tx : Option Channel

abbrev pub Buy : Type 0 → Type 0
Buy A = Action (Ctx FatCrabMakerBuyActor MakerEffect) A

-- FatCrabMakerBuyData::new: the store of a new trade, queued for saving.
unfoldable pub data_new : FatCrabOrder → Network → String → Uuid → FatCrabMakerBuyData
data_new order network fatcrab_rx_addr btc_funds_id = record {
  store = record {
    order = order;
    state = new;
    peer_pubkey = none;
    fatcrab_rx_addr = fatcrab_rx_addr;
    btc_funds_id = btc_funds_id;
    peer_btc_addr = none;
    offer_envelopes = [];
    peer_envelope = none;
  };
  is_queued = true;
  network = network;
}

-- A write of the store, and then `persister.queue()`.
abbrev write_store : (FatCrabMakerBuyDataStore → FatCrabMakerBuyDataStore) → Buy ⊤
write_store f = do
  update_self (λ a. record a { buy_data = written f a.buy_data })
  update_self (λ a. record a { buy_data = queued a.buy_data })

abbrev read_store : {A : Type 0} → (FatCrabMakerBuyDataStore → A) → Buy A
read_store f = gets (λ c. f c.self.buy_data.store)

abbrev pub set_state : FatCrabMakerState → Buy ⊤
set_state state = write_store (λ s. record s { state = state })

abbrev pub set_peer_pubkey : String → Buy ⊤
set_peer_pubkey pubkey = write_store (λ s. record s { peer_pubkey = some pubkey })

abbrev pub set_peer_btc_addr : Address → Buy ⊤
set_peer_btc_addr addr = write_store (λ s. record s { peer_btc_addr = some addr })

abbrev pub insert_offer_envelope : FatCrabOfferEnvelope → Buy ⊤
insert_offer_envelope envelope =
    write_store (λ s. record s { offer_envelopes = s.offer_envelopes ++ (envelope ∷ []) })

abbrev pub set_peer_envelope : FatCrabPeerEnvelope → Buy ⊤
set_peer_envelope envelope = write_store (λ s. record s { peer_envelope = some envelope })

parse_stored : BitcoinCrate → Network → Option String → Buy (Option Address)
parse_stored crate network none = pure none
parse_stored crate network (some addr_string) = do
  address ← parse_address crate addr_string network
  pure (some address)

-- It panics where the stored text is no address of the network.
peer_btc_addr : MakerEnv → Buy (Option Address)
unfolding parse_stored parse_address
peer_btc_addr env = do
  network ← gets (λ c. c.self.buy_data.network)
  stored ← read_store (λ s. s.peer_btc_addr)
  parse_stored env.crate network stored

abbrev pub reply_state : MakerEnv → Result FatCrabMakerState FatCrabError → Buy ⊤
reply_state env r = send_to env.rsp_open (MakerEffect.reply (MakerReply.state r))

-- FatCrabMakerBuyActor::new, on the purse: the sats of the order are set aside first.
unfoldable pub actor_new :
    Float → MakerEnv → FatCrabOrder → String → Action Purse FatCrabMakerBuyActor
unfolding data_new
actor_new f env order fatcrab_rx_addr = do
  btc_funds_id ← allocate_funds env.wallet (f.to_u64 (f.mul order.amount order.price))
  network ← gets (λ p. p.network)
  pure (record {
    trade_uuid = order.trade_uuid;
    buy_data = data_new order network fatcrab_rx_addr btc_funds_id;
    notif_tx = none;
  })

unfoldable pub can_cancel : FatCrabMakerState → Bool
can_cancel new = true
can_cancel waiting_for_offers = true
can_cancel received_offer = true
can_cancel _ = false

unfoldable pub cancel_order : MakerEnv → Buy ⊤
unfolding can_cancel
cancel_order env =
    catch (λ e. reply_state env (err e))
      (do
        state ← read_store (λ s. s.state)
        uuid ← gets (λ c. c.self.trade_uuid)
        throw_if (not (can_cancel state)) (simple (cannot_cancel_order uuid))
        call_n3xb MakerEffect.cancel_order env.cancel_order
        funds_id ← read_store (λ s. s.btc_funds_id)
        must (call_purse (free_funds funds_id))
        set_state trade_cancelled
        reply_state env (ok trade_cancelled))

-- `TradeResponseBuilder`: what `trade_response` sets.
abbrev pub accepting_rsp : FatCrabOfferEnvelope → String → TradeResponse
accepting_rsp offer receive_address = record {
  offer_event_id = offer.envelope.event_id;
  trade_response = accepted;
  reject_reason = none;
  trade_engine_specifics = fatcrab_make_trade_rsp receive_address;
}

abbrev pub rejecting_rsp : FatCrabOfferEnvelope → TradeResponse
rejecting_rsp offer = record {
  offer_event_id = offer.envelope.event_id;
  trade_response = rejected;
  reject_reason = some trade_engine_specific;
  trade_engine_specifics = other_specifics;
}

unfoldable pub trade_response : MakerEnv → FatCrabTradeRspType → FatCrabOfferEnvelope → Buy ⊤
trade_response env FatCrabTradeRspType.accept offer = do
  addr ← read_store (λ s. s.fatcrab_rx_addr)
  let rsp = accepting_rsp offer addr
  must (call_n3xb (MakerEffect.accept_offer rsp) (env.accept_offer rsp))
  set_peer_pubkey offer.pubkey
  set_state accepted_offer
  reply_state env (ok accepted_offer)
trade_response env FatCrabTradeRspType.reject offer = do
  let rsp = rejecting_rsp offer
  must (call_n3xb (MakerEffect.reject_offer rsp) (env.reject_offer rsp))
  state ← read_store (λ s. s.state)
  reply_state env (ok state)

keep_address : Option Address → Buy Bool
keep_address none = pure true
keep_address (some addr) = do set_peer_btc_addr addr; pure false

-- `true` if the peer's address is of another network, so that the message is dropped; it panics
-- where the text is no address.
unfoldable pub handle_peer_notif : MakerEnv → FatCrabPeerMessage → Buy Bool
unfolding keep_address
handle_peer_notif env message = do
  address ← unwrap (env.crate.address_from_str message.receive_address)
  network ← gets (λ c. c.purse.network)
  keep_address (env.crate.require_network address network)

unfoldable pub check_btc_tx_confirmation : MakerEnv → Buy ⊤
check_btc_tx_confirmation env = do
  uuid ← gets (λ c. c.self.trade_uuid)
  send_to env.rsp_open (
      MakerEffect.reply (MakerReply.confirmations (err (simple (buyer_has_no_peer_btc_txid uuid)))))

-- `release_notify_peer` from `send_funds` on.
unfoldable pub pay_and_notify : MakerEnv → Address → Buy ⊤
pay_and_notify env btc_addr = do
  funds_id ← read_store (λ s. s.btc_funds_id)
  txid ← call_purse (send_funds env.wallet funds_id btc_addr)
  rx_addr ← read_store (λ s. s.fatcrab_rx_addr)
  let message : FatCrabPeerMessage = record { receive_address = rx_addr; txid = txid }
  call_n3xb (MakerEffect.send_peer_message message) (env.send_peer_message message)
  reply_state env (ok notified_outbound)
  set_state notified_outbound

unfoldable pub release_notify_peer : MakerEnv → Buy ⊤
unfolding peer_btc_addr
release_notify_peer env =
    catch (λ e. reply_state env (err e))
      (do
        uuid ← gets (λ c. c.self.trade_uuid)
        stored ← peer_btc_addr env
        btc_addr ← or_throw stored (simple (btc_address_not_received uuid))
        pay_and_notify env btc_addr)

unfoldable pub trade_complete : MakerEnv → Buy ⊤
trade_complete env =
    catch (λ e. reply_state env (err e))
      (do
        set_state trade_completed
        call_n3xb MakerEffect.trade_complete env.trade_complete
        reply_state env (ok trade_completed))

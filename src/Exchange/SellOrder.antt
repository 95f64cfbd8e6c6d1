-- ===== src/Exchange/SellOrder.antt =====
-- The trade of a sell order: the taker pays bitcoin that its purse has set aside, as soon as the maker
-- accepts, and the maker gives FatCrabs.
use fatcrab_trading.Base.{true, String, some, List, [], ◌∷◌, ◌++◌, ◌≡◌, refl, sym, subst, arith}
use fatcrab_trading.Base.Dict.{Uuid}
use fatcrab_trading.Action.{ok, ret}
use fatcrab_trading.Common.{Network, BitcoinCrate, Txid, FatCrabPeerMessage, parse_address}
use fatcrab_trading.N3xb.{OfferEnvelope}
use fatcrab_trading.Offer.{validate_n3xb_offer}
use fatcrab_trading.TradeRsp.{from_n3xb_trade_rsp}
use fatcrab_trading.Purse.{Purse, Bdk, send_funds}
use fatcrab_trading.Actor.{Channel}
use fatcrab_trading.Maker
use fatcrab_trading.Maker.Sell.{FatCrabMakerSellDataStore}
use fatcrab_trading.Maker.Types.{FatCrabMakerState, MakerEffect}
use fatcrab_trading.Taker
use fatcrab_trading.Taker.Sell.{FatCrabTakerSellDataStore}
use fatcrab_trading.Taker.Types.{FatCrabTakerState, TakerEffect}
use fatcrab_trading.Exchange.{
  Pair, serving_maker, serving_taker, agree, settle_sell, on_maker, on_taker, taker_message,
}
use fatcrab_trading.Exchange.BuyOrder.{Reads, received}

module _ (uuid : Uuid) (network : Network) (ch : Channel) where
  abbrev pub maker_at : FatCrabMakerSellDataStore → Purse → List MakerEffect → Maker.World
  maker_at store p out = record {
    self = record {
      inner = Maker.sell_actor (record {
        trade_uuid = uuid;
        sell_data = record { store = store; is_queued = true; network = network };
        notif_tx = some ch;
      });
      trade_uuid = uuid;
      notif_tx = some ch;
    };
    purse = p;
    out = out;
  }

  abbrev pub taker_at : FatCrabTakerSellDataStore → Purse → List TakerEffect → Taker.World
  taker_at store p out = record {
    self = record {
      inner = Taker.sell_actor (record {
        trade_uuid = uuid;
        sell_data = record { store = store; is_queued = true; network = network };
        notif_tx = some ch;
      });
      trade_uuid = uuid;
      notif_tx = some ch;
    };
    purse = p;
    out = out;
  }

module _ (uuid : Uuid) (network : Network) (ch ch' : Channel) (wallet wallet' : Bdk)
    (crate crate' : BitcoinCrate) (p p' : Purse) where
  abbrev pub pair_at :
      FatCrabMakerSellDataStore
      → List MakerEffect
      → FatCrabTakerSellDataStore
      → Purse
      → List TakerEffect
      → Pair
  pair_at s out r paid out' = record {
    maker = maker_at uuid network ch s p out;
    taker = taker_at uuid network ch' r paid out';
  }

  abbrev pub IsAt : FatCrabMakerSellDataStore → FatCrabTakerSellDataStore → Purse → Pair → Type 0
  IsAt s r paid q =
      (q.maker ≡ maker_at uuid network ch s p q.maker.out)
      × (q.taker ≡ taker_at uuid network ch' r paid q.taker.out)

  abbrev pub agreed_maker : OfferEnvelope → FatCrabMakerSellDataStore → FatCrabMakerSellDataStore
  agreed_maker offer s = record s {
    state = FatCrabMakerState.accepted_offer;
    peer_pubkey = some offer.pubkey;
    offer_envelopes =
        s.offer_envelopes ++ (record { pubkey = offer.pubkey; envelope = offer } ∷ []);
  }

  abbrev pub agreed_taker :
      FatCrabMakerSellDataStore → FatCrabTakerSellDataStore → FatCrabTakerSellDataStore
  agreed_taker s r = record r {
    state = FatCrabTakerState.notified_outbound;
    peer_btc_addr = some s.btc_rx_addr;
  }

  abbrev pub message_of : FatCrabTakerSellDataStore → Txid → FatCrabPeerMessage
  message_of r txid = record { receive_address = r.fatcrab_rx_addr; txid = txid }

  -- The taker's log ends with its message to the maker.
  abbrev pub IsAgreed :
      OfferEnvelope
      → FatCrabMakerSellDataStore
      → FatCrabTakerSellDataStore
      → Txid
      → Purse
      → Pair
      → Type 0
  IsAgreed offer s r txid paid q =
      IsAt (agreed_maker offer s) (agreed_taker s r) paid q
      × (taker_message q.taker.out ≡ some (message_of r txid))

  agree_step :
      (offer : OfferEnvelope) (s : FatCrabMakerSellDataStore) (r : FatCrabTakerSellDataStore)
      (txid : Txid) (paid : Purse)
      → validate_n3xb_offer offer.offer ≡ ok tt
      → p'.network ≡ network
      → Reads crate network s.btc_rx_addr
      → Reads crate' network s.btc_rx_addr
      → send_funds wallet' r.btc_funds_id s.btc_rx_addr p' ≡ ret txid paid
      → IsAgreed offer s r txid paid (
          agree
            (serving_maker wallet crate)
            (serving_taker wallet' crate')
            offer
            (pair_at s [] r p' []))
  unfolding agree on_maker on_taker Maker.Run.handle_event Maker.Run.handle_request
      Maker.Run.handle_notif Taker.Run.handle_event Taker.Run.handle_request Taker.Run.handle_notif
      Maker.post_new_order Taker.take_order Maker.Notifications.handle_offer_notif
      Maker.Notifications.handle_offer_in_unexpected_state Maker.Sell.trade_response
      Taker.Notifications.handle_trade_rsp_notif Taker.Sell.handle_trade_rsp_notif
      Taker.Sell.release_btc_notify_peer Taker.Sell.pay_and_notify Taker.Sell.notify_trade_rsp
      from_n3xb_trade_rsp parse_address
  agree_step offer s r txid paid valid net reads reads' sent = ground arith

  -- The stores after the settlement; each side keeps the other's message.
  abbrev pub paid_maker :
      FatCrabTakerSellDataStore → Txid → FatCrabMakerSellDataStore → FatCrabMakerSellDataStore
  paid_maker r txid s = record s {
    state = FatCrabMakerState.trade_completed;
    peer_btc_txid = some txid;
    peer_envelope = some (received (message_of r txid));
  }

  abbrev pub paid_taker :
      FatCrabMakerSellDataStore → String → FatCrabTakerSellDataStore → FatCrabTakerSellDataStore
  paid_taker s fatcrab_txid r = record r {
    state = FatCrabTakerState.trade_completed;
    peer_envelope =
        some (received (record { receive_address = s.btc_rx_addr; txid = fatcrab_txid }));
  }

  settle_step :
      (s : FatCrabMakerSellDataStore) (out : List MakerEffect) (r : FatCrabTakerSellDataStore)
      (out' : List TakerEffect) (fatcrab_txid : String) (txid : Txid) (paid : Purse)
      → s.state ≡ FatCrabMakerState.accepted_offer
      → r.state ≡ FatCrabTakerState.notified_outbound
      → Reads crate network s.btc_rx_addr
      → crate.txid_from_str txid ≡ some txid
      → taker_message out' ≡ some (message_of r txid)
      → IsAt (paid_maker r txid s) (paid_taker s fatcrab_txid r) paid (
          settle_sell
            (serving_maker wallet crate)
            (serving_taker wallet' crate')
            fatcrab_txid
            (pair_at s out r paid out'))
  unfolding settle_sell on_maker on_taker Maker.Run.handle_event Maker.Run.handle_request
      Maker.Run.handle_notif Taker.Run.handle_event Taker.Run.handle_request Taker.Run.handle_notif
      Maker.Notifications.handle_peer_notif Maker.Sell.handle_peer_notif Maker.Sell.notify_peer
      Maker.Sell.trade_complete Taker.Notifications.handle_peer_notif Taker.Sell.handle_peer_notif
      Taker.Sell.trade_complete parse_address
  settle_step s out r out' fatcrab_txid txid paid at at' reads is_id told = ground arith

  abbrev pub Completes :
      OfferEnvelope
      → FatCrabMakerSellDataStore
      → FatCrabTakerSellDataStore
      → String
      → Txid
      → Purse
      → Pair
      → Type 0
  Completes offer s r fatcrab_txid txid paid =
      IsAt (paid_maker r txid (agreed_maker offer s)) (paid_taker s fatcrab_txid (agreed_taker s r))
        paid

  -- A trade of a sell order runs through: from a maker and a taker with their channels registered, if the
  -- offer is valid, the taker's wallet sends the funds that were set aside, the texts of addresses and of
  -- the transaction id are read as such, and the n3xb crate does what it is asked to, both sides end in
  -- `TradeCompleted`. The taker's purse has sent the trade's funds to the very address that the maker
  -- got from its own wallet, the maker holds the id of this transaction, and each side holds the other's
  -- message.
  pub sell_order-Completes :
      (offer : OfferEnvelope) (s : FatCrabMakerSellDataStore) (r : FatCrabTakerSellDataStore)
      (fatcrab_txid : String) (txid : Txid) (paid : Purse)
      → validate_n3xb_offer offer.offer ≡ ok tt
      → p'.network ≡ network
      → Reads crate network s.btc_rx_addr
      → Reads crate' network s.btc_rx_addr
      → crate.txid_from_str txid ≡ some txid
      → send_funds wallet' r.btc_funds_id s.btc_rx_addr p' ≡ ret txid paid
      → Completes offer s r fatcrab_txid txid paid (
          settle_sell (serving_maker wallet crate) (serving_taker wallet' crate') fatcrab_txid (
            agree
              (serving_maker wallet crate)
              (serving_taker wallet' crate')
              offer
              (pair_at s [] r p' [])))
  sell_order-Completes offer s r fatcrab_txid txid paid valid net reads reads' is_id sent =
      let me = serving_maker wallet crate in
      let te = serving_taker wallet' crate' in
      let q = agree me te offer (pair_at s [] r p' []) in
      let agreed = agree_step offer s r txid paid valid net reads reads' sent in
      let at : q ≡ pair_at (agreed_maker offer s) q.maker.out (agreed_taker s r) paid q.taker.out =
        ground (arith, agreed) in
      let settled =
        settle_step (agreed_maker offer s) q.maker.out (agreed_taker s r) q.taker.out fatcrab_txid
          txid paid refl refl reads is_id agreed.1 in
      subst (λ q. Completes offer s r fatcrab_txid txid paid (settle_sell me te fatcrab_txid q))
        (sym at) settled

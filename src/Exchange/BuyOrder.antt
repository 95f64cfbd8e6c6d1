-- ===== src/Exchange/BuyOrder.antt =====
-- The trade of a buy order: the maker pays bitcoin that its purse has set aside, and the taker gives
-- FatCrabs.
use fatcrab_trading.Base.{true, String, some, List, [], ◌∷◌, ◌++◌, ◌≡◌, refl, sym, subst, arith}
use fatcrab_trading.Base.Dict.{Uuid}
use fatcrab_trading.Action.{ok, ret}
use fatcrab_trading.Common.{
  Network, BitcoinCrate, Address, Txid, FatCrabPeerMessage, FatCrabPeerEnvelope, parse_address,
}
use fatcrab_trading.N3xb.{TradeResponseEnvelope, OfferEnvelope}
use fatcrab_trading.Offer.{validate_n3xb_offer}
use fatcrab_trading.TradeRsp.{FatCrabTradeRsp, from_n3xb_trade_rsp}
use fatcrab_trading.Purse.{Purse, Bdk, send_funds}
use fatcrab_trading.Actor.{Channel}
use fatcrab_trading.Maker
use fatcrab_trading.Maker.Buy
use fatcrab_trading.Maker.Buy.{FatCrabMakerBuyDataStore}
use fatcrab_trading.Maker.Types.{FatCrabMakerState, MakerEffect}
use fatcrab_trading.Taker
use fatcrab_trading.Taker.Types.{FatCrabTakerState, TakerEffect}
use fatcrab_trading.Exchange.{
  Pair, carried, serving_maker, serving_taker, agree, settle_buy, on_maker, on_taker,
}

-- The crate reads the text as an address of the network, which prints as the same text.
abbrev pub Reads : BitcoinCrate → Network → String → Type 0
Reads crate network text =
    (crate.address_from_str text ≡ some text) × (crate.require_network text network ≡ some text)

abbrev pub received : FatCrabPeerMessage → FatCrabPeerEnvelope
received m = record { message = m; envelope = carried m }

module _ (uuid : Uuid) (network : Network) (ch : Channel) where
  abbrev pub maker_at : FatCrabMakerBuyDataStore → Purse → List MakerEffect → Maker.World
  maker_at store p out = record {
    self = record {
      inner = Maker.buy_actor (record {
        trade_uuid = uuid;
        buy_data = record { store = store; is_queued = true; network = network };
        notif_tx = some ch;
      });
      trade_uuid = uuid;
      notif_tx = some ch;
    };
    purse = p;
    out = out;
  }

  abbrev pub taker_at : Taker.Buy.FatCrabTakerBuyDataStore → Purse → List TakerEffect → Taker.World
  taker_at store p out = record {
    self = record {
      inner = Taker.buy_actor (record {
        trade_uuid = uuid;
        buy_data = record { store = store; is_queued = true; network = network };
        notif_tx = some ch;
      });
      trade_uuid = uuid;
      notif_tx = some ch;
    };
    purse = p;
    out = out;
  }

module _ (uuid : Uuid) (network : Network) (ch ch' : Channel) (wallet wallet' : Bdk)
    (crate crate' : BitcoinCrate) (p p' : Purse) where
  abbrev pub pair_at :
      FatCrabMakerBuyDataStore
      → List MakerEffect
      → Taker.Buy.FatCrabTakerBuyDataStore
      → List TakerEffect
      → Pair
  pair_at s out r out' = record {
    maker = maker_at uuid network ch s p out;
    taker = taker_at uuid network ch' r p' out';
  }

  -- The stores after the agreement.
  abbrev pub agreed_maker : OfferEnvelope → FatCrabMakerBuyDataStore → FatCrabMakerBuyDataStore
  agreed_maker offer s = record s {
    state = FatCrabMakerState.accepted_offer;
    peer_pubkey = some offer.pubkey;
    offer_envelopes =
        s.offer_envelopes ++ (record { pubkey = offer.pubkey; envelope = offer } ∷ []);
  }

  abbrev pub answer : OfferEnvelope → FatCrabMakerBuyDataStore → TradeResponseEnvelope
  answer offer s = record {
    event_id = "answer";
    trade_rsp =
        Maker.Buy.accepting_rsp (record { pubkey = offer.pubkey; envelope = offer })
          s.fatcrab_rx_addr;
  }

  abbrev pub agreed_taker :
      OfferEnvelope
      → FatCrabMakerBuyDataStore
      → Taker.Buy.FatCrabTakerBuyDataStore
      → Taker.Buy.FatCrabTakerBuyDataStore
  agreed_taker offer s r = record r {
    state = FatCrabTakerState.offer_accepted;
    trade_rsp_envelope = some (record {
      trade_rsp = FatCrabTradeRsp.accept s.fatcrab_rx_addr;
      envelope = answer offer s;
    });
  }

  abbrev pub IsAt :
      Purse → FatCrabMakerBuyDataStore → Taker.Buy.FatCrabTakerBuyDataStore → Pair → Type 0
  IsAt paid s r q =
      (q.maker ≡ maker_at uuid network ch s paid q.maker.out)
      × (q.taker ≡ taker_at uuid network ch' r p' q.taker.out)

  agree_step :
      (offer : OfferEnvelope) (s : FatCrabMakerBuyDataStore)
      (r : Taker.Buy.FatCrabTakerBuyDataStore)
      → validate_n3xb_offer offer.offer ≡ ok tt
      → IsAt p (agreed_maker offer s) (agreed_taker offer s r) (
          agree
            (serving_maker wallet crate)
            (serving_taker wallet' crate')
            offer
            (pair_at s [] r []))
  unfolding agree on_maker on_taker Maker.Run.handle_event Maker.Run.handle_request
      Maker.Run.handle_notif Taker.Run.handle_event Taker.Run.handle_request Taker.Run.handle_notif
      Maker.post_new_order Taker.take_order Maker.Notifications.handle_offer_notif
      Maker.Notifications.handle_offer_in_unexpected_state Maker.Buy.trade_response
      Taker.Notifications.handle_trade_rsp_notif Taker.Buy.handle_trade_rsp_notif
      from_n3xb_trade_rsp
  agree_step offer s r valid = ground arith

  -- The stores after the settlement; each side keeps the other's message.
  abbrev pub paid_maker : Address → String → FatCrabMakerBuyDataStore → FatCrabMakerBuyDataStore
  paid_maker addr fatcrab_txid s = record s {
    state = FatCrabMakerState.trade_completed;
    peer_btc_addr = some addr;
    peer_envelope = some (received (record { receive_address = addr; txid = fatcrab_txid }));
  }

  abbrev pub paid_taker :
      Txid → String → Taker.Buy.FatCrabTakerBuyDataStore → Taker.Buy.FatCrabTakerBuyDataStore
  paid_taker txid fatcrab_rx_addr r = record r {
    state = FatCrabTakerState.trade_completed;
    peer_btc_txid = some txid;
    peer_envelope = some (received (record { receive_address = fatcrab_rx_addr; txid = txid }));
  }

  abbrev pub Completes :
      OfferEnvelope
      → FatCrabMakerBuyDataStore
      → Taker.Buy.FatCrabTakerBuyDataStore
      → String
      → Txid
      → Purse
      → Pair
      → Type 0
  Completes offer s r fatcrab_txid txid paid =
      IsAt paid (paid_maker r.btc_rx_addr fatcrab_txid (agreed_maker offer s))
        (paid_taker txid s.fatcrab_rx_addr (agreed_taker offer s r))

  settle_step :
      (s : FatCrabMakerBuyDataStore) (out : List MakerEffect)
      (r : Taker.Buy.FatCrabTakerBuyDataStore) (out' : List TakerEffect) (fatcrab_txid : String)
      (txid : Txid) (paid : Purse)
      → s.state ≡ FatCrabMakerState.accepted_offer
      → p.network ≡ network
      → Reads crate network r.btc_rx_addr
      → Reads crate' network r.btc_rx_addr
      → crate'.txid_from_str txid ≡ some txid
      → send_funds wallet s.btc_funds_id r.btc_rx_addr p ≡ ret txid paid
      → IsAt paid (paid_maker r.btc_rx_addr fatcrab_txid s) (paid_taker txid s.fatcrab_rx_addr r) (
          settle_buy
            (serving_maker wallet crate)
            (serving_taker wallet' crate')
            fatcrab_txid
            (pair_at s out r out'))
  unfolding settle_buy on_maker on_taker Maker.Run.handle_event Maker.Run.handle_request
      Maker.Run.handle_notif Taker.Run.handle_event Taker.Run.handle_request Taker.Run.handle_notif
      Maker.Notifications.handle_peer_notif Maker.Buy.handle_peer_notif
      Maker.Buy.release_notify_peer Maker.Buy.pay_and_notify Maker.Buy.trade_complete
      Taker.Buy.notify_peer Taker.Notifications.handle_peer_notif Taker.Buy.handle_peer_notif
      Taker.Buy.trade_complete parse_address
  settle_step s out r out' fatcrab_txid txid paid at net reads reads' is_id sent = ground arith

  -- A trade of a buy order runs through: from a maker and a taker with their channels registered, if
  -- the offer is valid, the wallet sends the funds that were set aside, the texts of addresses and of the
  -- transaction id are read as such, and the n3xb crate does what it is asked to, both sides end in
  -- `TradeCompleted`. The maker's purse has sent the trade's funds to the very address that the taker got
  -- from its own wallet, the taker holds the id of this transaction, and each side holds the other's
  -- message, with the maker's FatCrab address and the taker's FatCrab transaction id.
  pub buy_order-Completes :
      (offer : OfferEnvelope) (s : FatCrabMakerBuyDataStore)
      (r : Taker.Buy.FatCrabTakerBuyDataStore) (fatcrab_txid : String) (txid : Txid) (paid : Purse)
      → validate_n3xb_offer offer.offer ≡ ok tt
      → p.network ≡ network
      → Reads crate network r.btc_rx_addr
      → Reads crate' network r.btc_rx_addr
      → crate'.txid_from_str txid ≡ some txid
      → send_funds wallet s.btc_funds_id r.btc_rx_addr p ≡ ret txid paid
      → Completes offer s r fatcrab_txid txid paid (
          settle_buy (serving_maker wallet crate) (serving_taker wallet' crate') fatcrab_txid (
            agree
              (serving_maker wallet crate)
              (serving_taker wallet' crate')
              offer
              (pair_at s [] r [])))
  buy_order-Completes offer s r fatcrab_txid txid paid valid net reads reads' is_id sent =
      let me = serving_maker wallet crate in
      let te = serving_taker wallet' crate' in
      let q = agree me te offer (pair_at s [] r []) in
      let agreed = agree_step offer s r valid in
      let at : q ≡ pair_at (agreed_maker offer s) q.maker.out (agreed_taker offer s r) q.taker.out =
        ground (arith, agreed) in
      let settled =
        settle_step (agreed_maker offer s) q.maker.out (agreed_taker offer s r) q.taker.out
          fatcrab_txid txid paid refl net reads reads' is_id sent in
      subst (λ q. Completes offer s r fatcrab_txid txid paid (settle_buy me te fatcrab_txid q))
        (sym at) settled

-- ===== src/Samples.antt =====
-- Concrete values on which the tests evaluate the code: a wallet that grants everything, a purse with
-- two allocations, an order of each type, and trades in several states.
use fatcrab_trading.Base.{◌*◌, true, String, Option, none, some, [], ◌∷◌}
use fatcrab_trading.Action.{ok}
use fatcrab_trading.Common.{Network, Float, BitcoinCrate, PeerEnvelope, fatcrab_peer_message}
use fatcrab_trading.N3xb.{
  BitcoinNetwork, onchain, ObligationKind, N3xbOrder, OfferEnvelope, TradeResponseEnvelope,
  accepted, fatcrab_make_trade_rsp,
}
use fatcrab_trading.Order.{FatCrabOrder, FatCrabOrderType, FatCrabOrderEnvelope, fatcrab_kind}
use fatcrab_trading.Offer.{FatCrabOfferEnvelope}
use fatcrab_trading.Purse.{Purse, Bdk}
use fatcrab_trading.Maker
use fatcrab_trading.Maker.Buy
use fatcrab_trading.Maker.Types.{MakerEnv, FatCrabMakerState}
use fatcrab_trading.Taker
use fatcrab_trading.Taker.Sell
use fatcrab_trading.Taker.Types.{TakerEnv, FatCrabTakerState}

abbrev pub wallet : Bdk
wallet = record {
  rsp_open = true;
  overflow_checks = true;
  mnemonic = ok "abandon ability able";
  get_address = ok "bc1q-own";
  get_balance =
      ok (record { immature = 0; trusted_pending = 1000; untrusted_pending = 0; confirmed = 9000 });
  new_uuid = 99;
  estimate_fee = λ blocks. ok 3;
  finish = λ request. ok "psbt";
  sign = λ psbt. ok psbt;
  extract_tx = λ psbt. psbt;
  txid = λ tx. "txid";
  broadcast = λ tx. none;
  get_height = ok 120;
  get_tx = λ txid. ok (some (record { confirmation_height = some 100 }));
  sync = none;
}

abbrev pub crate : BitcoinCrate
crate = record {
  address_from_str = λ text. some text;
  require_network = λ address network. some address;
  txid_from_str = λ text. some text;
}

-- Whole numbers in the place of floats, with `1.0 / x` as the identity.
abbrev pub float : Float
float = record { mul = λ x y. x * y; recip = λ x. x; round = λ x. x; to_u64 = λ x. x }

abbrev pub purse : Purse
purse = record {
  network = Network.signet;
  purse_data = record {
    store = record {
      network = Network.signet;
      height = 110;
      allocated_funds = (7, 500) ∷ (8, 300) ∷ [];
    };
    is_queued = true;
  };
  sent = [];
}

abbrev pub buy_order : FatCrabOrder
buy_order = record {
  order_type = FatCrabOrderType.buy;
  trade_uuid = 1;
  amount = 100;
  price = 5;
  network = Network.signet;
}

abbrev pub sell_order : FatCrabOrder
sell_order = record buy_order { order_type = FatCrabOrderType.sell }

-- The n3xb order that a buy order is turned into.
abbrev pub n3xb_order : N3xbOrder
n3xb_order = record {
  trade_uuid = 1;
  maker_obligation = record {
    kinds = ObligationKind.bitcoin BitcoinNetwork.signet (some onchain) ∷ [];
    amount = 500;
    amount_min = none;
  };
  taker_obligation = record {
    kinds = ObligationKind.custom fatcrab_kind ∷ [];
    limit_rate = some 5;
    market_offset_pct = none;
    market_oracles = none;
  };
  trade_details = record {
    parameters = [];
    maker_bond_pct = none;
    taker_bond_pct = none;
    trade_timeout = none;
  };
}

abbrev pub order_envelope : FatCrabOrderEnvelope
order_envelope = record {
  order = sell_order;
  pubkey = "maker";
  envelope = record { pubkey = "maker"; order = n3xb_order };
}

abbrev pub offer_envelope : OfferEnvelope
offer_envelope = record {
  pubkey = "taker";
  event_id = "offer";
  offer = record {
    maker_obligation = record {
      kind = ObligationKind.bitcoin BitcoinNetwork.signet (some onchain);
      amount = 500;
      bond_amount = none;
    };
    taker_obligation = record {
      kind = ObligationKind.custom fatcrab_kind;
      amount = 100;
      bond_amount = none;
    };
  };
}

abbrev pub offer : FatCrabOfferEnvelope
offer = record { pubkey = "taker"; envelope = offer_envelope }

abbrev pub accepting : TradeResponseEnvelope
accepting = record {
  event_id = "answer";
  trade_rsp = record {
    offer_event_id = "offer";
    trade_response = accepted;
    reject_reason = none;
    trade_engine_specifics = fatcrab_make_trade_rsp "bc1q-maker";
  };
}

abbrev pub peer_envelope : PeerEnvelope
peer_envelope = record {
  event_id = "peer";
  message = fatcrab_peer_message (record { receive_address = "bc1q-peer"; txid = "fatcrabs" });
}

abbrev pub maker_env : MakerEnv
maker_env = record {
  post_new_order = none;
  cancel_order = none;
  trade_complete = none;
  shutdown = none;
  accept_offer = λ rsp. none;
  reject_offer = λ rsp. none;
  send_peer_message = λ message. none;
  rsp_open = true;
  notif_open = true;
  wallet = wallet;
  crate = crate;
}

-- The buy maker with this state and this address of the peer; its funds are those under 7.
abbrev pub buy_maker : FatCrabMakerState → Option String → Buy.FatCrabMakerBuyActor
buy_maker state peer_btc_addr = record {
  trade_uuid = 1;
  buy_data = record {
    store = record {
      order = buy_order;
      state = state;
      peer_pubkey = some "taker";
      fatcrab_rx_addr = "fatcrab-own";
      btc_funds_id = 7;
      peer_btc_addr = peer_btc_addr;
      offer_envelopes = offer ∷ [];
      peer_envelope = none;
    };
    is_queued = true;
    network = Network.signet;
  };
  notif_tx = some 3;
}

abbrev pub buy_maker_ctx : FatCrabMakerState → Option String → Maker.Release.BuyCtx
buy_maker_ctx state peer_btc_addr = record {
  self = buy_maker state peer_btc_addr;
  purse = purse;
  out = [];
}

abbrev pub buy_maker_world : FatCrabMakerState → Option String → Maker.World
buy_maker_world state peer_btc_addr = record {
  self = record {
    inner = Maker.buy_actor (buy_maker state peer_btc_addr);
    trade_uuid = 1;
    notif_tx = some 3;
  };
  purse = purse;
  out = [];
}

abbrev pub taker_env : TakerEnv
taker_env = record {
  take_order = none;
  trade_complete = none;
  shutdown = none;
  send_peer_message = λ message. none;
  rsp_open = true;
  notif_open = true;
  wallet = wallet;
  crate = crate;
}

-- The sell taker with this state; its funds are those under 8.
abbrev pub sell_taker : FatCrabTakerState → Option String → Sell.FatCrabTakerSellActor
sell_taker state peer_btc_addr = record {
  trade_uuid = 1;
  sell_data = record {
    store = record {
      order_envelope = order_envelope;
      state = state;
      fatcrab_rx_addr = "fatcrab-own";
      btc_funds_id = 8;
      peer_btc_addr = peer_btc_addr;
      peer_envelope = none;
    };
    is_queued = true;
    network = Network.signet;
  };
  notif_tx = some 4;
}

abbrev pub sell_taker_world : FatCrabTakerState → Option String → Taker.World
sell_taker_world state peer_btc_addr = record {
  self = record {
    inner = Taker.sell_actor (sell_taker state peer_btc_addr);
    trade_uuid = 1;
    notif_tx = some 4;
  };
  purse = purse;
  out = [];
}

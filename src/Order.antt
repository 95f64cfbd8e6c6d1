-- ===== src/Order.antt =====
-- src/order.rs: the engine's order, and its translation to and from an n3xb order. `into` is a
-- method that panics on a network without an n3xb name; `1.0 / x` is `recip`.
pub mod RoundTrip
pub mod Reading
mod Tests
use text.Mathlib.Text.{◌==◌ as str_eq}
use fatcrab_trading.Base.{String, ⊤, Bool, true, false, not, Option, none, some, List, [], ◌∷◌}
use fatcrab_trading.Base.Dict.{Uuid}
use fatcrab_trading.Action.{
  Action, pure, ◌>>=◌, ◌>>◌, gets, modify, fail, throw, throw_if, unwrap, when, for_each, Outcome,
  ret, raise, panic,
}
use fatcrab_trading.Error.{
  simple, unexpected_bitcoin_network, mismatch_maker_kinds, mismatch_taker_kinds,
  order_type_not_determined, FatCrabError,
}
use fatcrab_trading.Common.{Network, F64, Float}
use fatcrab_trading.N3xb.{
  BitcoinNetwork, ObligationKind, onchain, is_onchain, N3xbOrder, OrderEnvelope, TradeDetails,
}

abbrev pub fatcrab_kind : String
fatcrab_kind = "FatCrab"

pub data FatCrabOrderType : Type 0 where
  buy sell : FatCrabOrderType

abbrev pub order_type_eq : FatCrabOrderType → FatCrabOrderType → Bool
order_type_eq buy buy = true
order_type_eq sell sell = true
order_type_eq _ _ = false

pub record FatCrabOrder : Type 0 where
  pub order_type : FatCrabOrderType
  pub trade_uuid : Uuid
  pub amount : F64
  pub price : F64
  pub network : Network

pub record FatCrabOrderEnvelope : Type 0 where
  pub order : FatCrabOrder
  pub pubkey : String
  pub envelope : OrderEnvelope

-- The panic is `none`.
unfoldable pub n3xb_network : Network → Option BitcoinNetwork
n3xb_network Network.bitcoin = some BitcoinNetwork.mainnet
n3xb_network Network.testnet = some BitcoinNetwork.testnet
n3xb_network Network.regtest = some BitcoinNetwork.regtest
n3xb_network Network.signet = some BitcoinNetwork.signet
n3xb_network Network.other = none

unfoldable pub bitcoin_network_matches : BitcoinNetwork → Network → Bool
bitcoin_network_matches BitcoinNetwork.mainnet Network.bitcoin = true
bitcoin_network_matches BitcoinNetwork.testnet Network.testnet = true
bitcoin_network_matches BitcoinNetwork.regtest Network.regtest = true
bitcoin_network_matches BitcoinNetwork.signet Network.signet = true
bitcoin_network_matches _ _ = false

-- The local variables of `from_n3xb_order`.
pub record Scan : Type 0 where
  pub amount : Option F64
  pub price : Option F64
  pub fatcrab_order_kind : Option FatCrabOrderType
  pub intended_order_kind : Option FatCrabOrderType

abbrev scan_start : Scan
scan_start = record {
  amount = none;
  price = none;
  fatcrab_order_kind = none;
  intended_order_kind = none;
}

compare_kinds :
    FatCrabError
    → (FatCrabOrderType → Action Scan ⊤)
    → Option FatCrabOrderType
    → FatCrabOrderType
    → Action Scan ⊤
compare_kinds error first none intended = first intended
compare_kinds error first (some kind) intended = throw_if (not (order_type_eq kind intended)) error

agree_from :
    FatCrabError
    → (FatCrabOrderType → Action Scan ⊤)
    → Option FatCrabOrderType
    → Option FatCrabOrderType
    → Action Scan ⊤
agree_from error first kept none = pure tt
agree_from error first kept (some intended) = compare_kinds error first kept intended

-- The test at the end of a round: the first kind that is found is kept, and a later one has to be
-- the same. `first` is what the round does where none is kept yet.
agree_kinds : FatCrabError → (FatCrabOrderType → Action Scan ⊤) → Action Scan ⊤
unfolding compare_kinds agree_from
agree_kinds error first = do
  intended ← gets (λ s. s.intended_order_kind)
  kept ← gets (λ s. s.fatcrab_order_kind)
  agree_from error first kept intended

abbrev keep_kind : FatCrabOrderType → Action Scan ⊤
keep_kind kind = modify (λ s. record s { fatcrab_order_kind = some kind })

-- One round of the first loop, over the kinds of the maker's obligation.
scan_maker_kind : Float → N3xbOrder → Network → ObligationKind → Action Scan ⊤
unfolding agree_kinds
scan_maker_kind f order network (ObligationKind.custom string) = do
  when (str_eq string fatcrab_kind) (do
    modify (λ s. record s {
      intended_order_kind = some sell;
      amount = some order.maker_obligation.amount;
    })
    rate ← unwrap order.taker_obligation.limit_rate
    modify (λ s. record s { price = some rate }))
  agree_kinds (simple mismatch_maker_kinds) keep_kind
scan_maker_kind f order network (ObligationKind.bitcoin n3xb settlement) = do
  throw_if (not (bitcoin_network_matches n3xb network)) (simple unexpected_bitcoin_network)
  when (is_onchain settlement) (do
    modify (λ s. record s { intended_order_kind = some buy })
    rate ← unwrap order.taker_obligation.limit_rate
    modify (λ s. record s {
      price = some (f.recip rate);
      amount = some (f.mul order.maker_obligation.amount rate);
    }))
  agree_kinds (simple mismatch_maker_kinds) keep_kind
scan_maker_kind f order network (ObligationKind.fiat currency method) = pure tt

-- One round of the second loop, over the kinds of the taker's obligation. The network of a Bitcoin
-- kind is not looked at. The loop panics where the first has kept no kind.
scan_taker_kind : ObligationKind → Action Scan ⊤
unfolding agree_kinds
scan_taker_kind (ObligationKind.custom string) = do
  when (str_eq string fatcrab_kind) (modify (λ s. record s { intended_order_kind = some buy }))
  agree_kinds (simple mismatch_taker_kinds) (λ _. fail)
scan_taker_kind (ObligationKind.bitcoin n3xb settlement) = do
  when (is_onchain settlement) (modify (λ s. record s { intended_order_kind = some sell }))
  agree_kinds (simple mismatch_taker_kinds) (λ _. fail)
scan_taker_kind (ObligationKind.fiat currency method) = pure tt

-- The order that the loops have found, if they have found all of it.
found_order :
    Uuid → Network → Option FatCrabOrderType → Option F64 → Option F64 → Action Scan FatCrabOrder
found_order uuid network (some kind) (some amount) (some price) = pure (record {
  order_type = kind;
  trade_uuid = uuid;
  amount = amount;
  price = price;
  network = network;
})
found_order uuid network _ _ _ = throw (simple order_type_not_determined)

from_n3xb_order_scan : Float → N3xbOrder → Network → Action Scan FatCrabOrder
unfolding scan_maker_kind scan_taker_kind for_each found_order
from_n3xb_order_scan f order network = do
  for_each (scan_maker_kind f order network) order.maker_obligation.kinds
  for_each scan_taker_kind order.taker_obligation.kinds
  kind ← gets (λ s. s.fatcrab_order_kind)
  amount ← gets (λ s. s.amount)
  price ← gets (λ s. s.price)
  found_order order.trade_uuid network kind amount price

-- The locals are dropped: `from_n3xb_order` changes no state.
abbrev drop_locals : {S A : Type 0} → Outcome Scan A → Action S A
drop_locals (ret a _) = pure a
drop_locals (raise e _) = throw e
drop_locals (panic _) = fail

unfoldable pub from_n3xb_order : {S : Type 0} → Float → N3xbOrder → Network → Action S FatCrabOrder
unfolding from_n3xb_order_scan
from_n3xb_order f order network = drop_locals (from_n3xb_order_scan f order network scan_start)

abbrev default_trade_details : TradeDetails
default_trade_details = record {
  parameters = [];
  maker_bond_pct = none;
  taker_bond_pct = none;
  trade_timeout = none;
}

into_on : Float → FatCrabOrder → BitcoinNetwork → FatCrabOrderType → N3xbOrder
into_on f o network buy = record {
  trade_uuid = o.trade_uuid;
  maker_obligation = record {
    kinds = ObligationKind.bitcoin network (some onchain) ∷ [];
    amount = f.mul o.amount o.price;
    amount_min = none;
  };
  taker_obligation = record {
    kinds = ObligationKind.custom fatcrab_kind ∷ [];
    limit_rate = some (f.recip o.price);
    market_offset_pct = none;
    market_oracles = none;
  };
  trade_details = default_trade_details;
}
into_on f o network sell = record {
  trade_uuid = o.trade_uuid;
  maker_obligation = record {
    kinds = ObligationKind.custom fatcrab_kind ∷ [];
    amount = o.amount;
    amount_min = none;
  };
  taker_obligation = record {
    kinds = ObligationKind.bitcoin network (some onchain) ∷ [];
    limit_rate = some o.price;
    market_offset_pct = none;
    market_oracles = none;
  };
  trade_details = default_trade_details;
}

unfoldable pub into : {S : Type 0} → Float → FatCrabOrder → Action S N3xbOrder
unfolding into_on n3xb_network
into f o = do network ← unwrap (n3xb_network o.network); pure (into_on f o network o.order_type)

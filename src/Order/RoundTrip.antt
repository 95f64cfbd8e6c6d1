-- ===== src/Order/RoundTrip.antt =====
-- An order that is turned into an n3xb order and read back.
use fatcrab_trading.Base.{◌≡◌, ◌≢◌, arith, if◌then◌else◌}
use fatcrab_trading.Action.{Action, ret, raise, ◌>>=◌}
use fatcrab_trading.Error.{simple, unexpected_bitcoin_network}
use fatcrab_trading.Common.{Network, Float}
use fatcrab_trading.Order.{
  FatCrabOrderType, buy, sell, FatCrabOrder, order_type_eq, from_n3xb_order, into,
  bitcoin_network_matches,
}

-- What comes back of an order: a sell order itself; of a buy order the price is inverted twice, and
-- the amount goes through the product with the price.
abbrev pub read_back : Float → FatCrabOrderType → FatCrabOrder → FatCrabOrder
read_back f sell o = o
read_back f buy o = record o {
  price = f.recip (f.recip o.price);
  amount = f.mul (f.mul o.amount o.price) (f.recip o.price);
}

abbrev pub post_and_read : {S : Type 0} → Float → FatCrabOrder → Network → Action S FatCrabOrder
post_and_read f o network = do order ← into f o; from_n3xb_order f order network

-- An order on a network with an n3xb name, turned into an n3xb order and read on that network,
-- comes back: a sell order as it was, and a buy order with its price inverted twice and its
-- amount multiplied by the price and by its inverse.
pub from_n3xb_order-into :
    {S : Type 0} (f : Float) (o : FatCrabOrder) (s : S)
    → o.network ≢ Network.other
    → post_and_read f o o.network s ≡ ret (read_back f o.order_type o) s
unfolding from_n3xb_order into bitcoin_network_matches
from_n3xb_order-into f o s known = ground arith

-- An order on a network with an n3xb name, turned into an n3xb order and read on another network:
-- a buy order is refused, but a sell order is taken for one of the reader's network.
pub from_n3xb_order-into_other_network :
    {S : Type 0} (f : Float) (o : FatCrabOrder) (network : Network) (s : S)
    → o.network ≢ Network.other
    → network ≢ o.network
    → post_and_read f o network s ≡ (
        if order_type_eq o.order_type buy
        then raise (simple unexpected_bitcoin_network) s
        else ret (record o { network = network }) s)
unfolding from_n3xb_order into bitcoin_network_matches
from_n3xb_order-into_other_network f o network s known other = ground arith

-- ===== src/Order/Tests.antt =====
-- The theorems on orders and offers at concrete values.
use fatcrab_trading.Base.{◌≡◌, ◌≢◌, ◌↔◌, arith, refl}
use fatcrab_trading.Action.{ret, ok}
use fatcrab_trading.Common.{Network}
use fatcrab_trading.Samples.{float, buy_order, sell_order, n3xb_order, offer_envelope}
use fatcrab_trading.Order.{FatCrabOrder, from_n3xb_order, bitcoin_network_matches}
use fatcrab_trading.Order.RoundTrip.{
  post_and_read, read_back, from_n3xb_order-into, from_n3xb_order-into_other_network,
}
use fatcrab_trading.Order.Reading.{States, from_n3xb_order-States}
use fatcrab_trading.Offer.{validate_n3xb_offer}
use fatcrab_trading.Offer.Laws.{AreComplementary, validate_n3xb_offer_iff}

signet_known : Network.signet ≢ Network.other
signet_known = ground arith

regtest_other : Network.regtest ≢ Network.signet
regtest_other = ground arith

from_n3xb_order-into_example :
    post_and_read float buy_order Network.signet tt
    ≡ ret (read_back float buy_order.order_type buy_order) tt
from_n3xb_order-into_example = from_n3xb_order-into float buy_order tt signet_known

from_n3xb_order-into_other_network_example :
    post_and_read float sell_order Network.regtest tt
    ≡ ret (record sell_order { network = Network.regtest }) tt
from_n3xb_order-into_other_network_example =
    from_n3xb_order-into_other_network float sell_order Network.regtest tt signet_known
      regtest_other

abbrev read_order : FatCrabOrder
read_order = record buy_order { amount = 2500 }

n3xb_order_read : from_n3xb_order float n3xb_order Network.signet tt ≡ ret read_order tt
unfolding from_n3xb_order bitcoin_network_matches
n3xb_order_read = refl

from_n3xb_order-States_example : States float n3xb_order Network.signet read_order
from_n3xb_order-States_example =
    from_n3xb_order-States float n3xb_order Network.signet read_order tt tt n3xb_order_read

validate_n3xb_offer_iff_example :
    (validate_n3xb_offer offer_envelope.offer ≡ ok tt)
    ↔ AreComplementary offer_envelope.offer.maker_obligation.kind
        offer_envelope.offer.taker_obligation.kind
validate_n3xb_offer_iff_example = validate_n3xb_offer_iff offer_envelope.offer

-- ===== src/Offer.antt =====
-- src/offer.rs: the offer that a taker makes for an order, and the maker's check of an offer.
pub mod Laws
use text.Mathlib.Text.{◌==◌ as str_eq}
use fatcrab_trading.Base.{String, ⊤, Bool, true, false, not, Option, none, some, if◌then◌else◌}
use fatcrab_trading.Action.{Fallible, ok, err, Action, pure, ◌>>=◌, unwrap}
use fatcrab_trading.Error.{
  simple, custom_kind_not_expected, fiat_kind_not_expected, obligation_kinds_inconsistent,
}
use fatcrab_trading.Common.{Float}
use fatcrab_trading.N3xb.{BitcoinNetwork, ObligationKind, onchain, N3xbOffer, OfferEnvelope}
use fatcrab_trading.Order.{
  FatCrabOrderType, buy, sell, order_type_eq, FatCrabOrder, fatcrab_kind, n3xb_network,
}

pub record FatCrabOfferEnvelope : Type 0 where
  pub pubkey : String
  pub envelope : OfferEnvelope

-- The order type that the maker's kind stands for.
maker_order_type : ObligationKind → Fallible FatCrabOrderType
maker_order_type (ObligationKind.bitcoin network settlement) = ok buy
maker_order_type (ObligationKind.custom kind) =
    if str_eq kind fatcrab_kind then ok sell else err (simple (custom_kind_not_expected kind))
maker_order_type (ObligationKind.fiat currency method) =
    err (simple (fiat_kind_not_expected currency))

-- Whether the taker's kind does not fit the order type.
internal_inconsistent : FatCrabOrderType → ObligationKind → Fallible Bool
internal_inconsistent order_type (ObligationKind.bitcoin network settlement) =
    ok (not (order_type_eq order_type sell))
internal_inconsistent order_type (ObligationKind.custom kind) =
    if str_eq kind fatcrab_kind
    then ok (not (order_type_eq order_type buy))
    else err (simple (custom_kind_not_expected kind))
internal_inconsistent order_type (ObligationKind.fiat currency method) =
    err (simple (fiat_kind_not_expected currency))

reject_inconsistent : Fallible Bool → Fallible ⊤
reject_inconsistent (ok true) = err (simple obligation_kinds_inconsistent)
reject_inconsistent (ok false) = ok tt
reject_inconsistent (err e) = err e

unfoldable pub validate_n3xb_offer : N3xbOffer → Fallible ⊤
unfolding maker_order_type internal_inconsistent reject_inconsistent
validate_n3xb_offer offer = elim (maker_order_type offer.maker_obligation.kind) [
  | err e ↦ err e
  | ok order_type ↦
      reject_inconsistent (internal_inconsistent order_type offer.taker_obligation.kind)
]

offer_on : Float → FatCrabOrder → BitcoinNetwork → FatCrabOrderType → N3xbOffer
offer_on f o network buy = record {
  maker_obligation = record {
    kind = ObligationKind.bitcoin network (some onchain);
    amount = f.round (f.mul o.amount o.price);
    bond_amount = none;
  };
  taker_obligation = record {
    kind = ObligationKind.custom fatcrab_kind;
    amount = o.amount;
    bond_amount = none;
  };
}
offer_on f o network sell = record {
  maker_obligation = record {
    kind = ObligationKind.custom fatcrab_kind;
    amount = o.amount;
    bond_amount = none;
  };
  taker_obligation = record {
    kind = ObligationKind.bitcoin network (some onchain);
    amount = f.round (f.mul o.amount o.price);
    bond_amount = none;
  };
}

-- It panics, through `n3xb_network`, on a network without an n3xb name.
unfoldable pub create_n3xb_offer : {S : Type 0} → Float → FatCrabOrder → Action S N3xbOffer
unfolding offer_on n3xb_network
create_n3xb_offer f o = do
  network ← unwrap (n3xb_network o.network)
  pure (offer_on f o network o.order_type)

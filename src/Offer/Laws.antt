-- ===== src/Offer/Laws.antt =====
-- Which offers a maker accepts for inspection.
use text.Mathlib.TextEquality.{eq_iff}
use fatcrab_trading.Base.{◌≡◌, ◌≢◌, ◌↔◌, refl, arith}
use fatcrab_trading.Action.{Outcome, ret, raise, panic, ok}
use fatcrab_trading.Common.{Network, Float}
use fatcrab_trading.N3xb.{ObligationKind, N3xbOffer}
use fatcrab_trading.Order.{FatCrabOrder, fatcrab_kind}
use fatcrab_trading.Offer.{validate_n3xb_offer, create_n3xb_offer}

-- One side pays bitcoin, and the other pays FatCrab.
abbrev pub AreComplementary : ObligationKind → ObligationKind → Type 0
AreComplementary (ObligationKind.bitcoin n s) (ObligationKind.custom k) = k ≡ fatcrab_kind
AreComplementary (ObligationKind.custom k) (ObligationKind.bitcoin n s) = k ≡ fatcrab_kind
AreComplementary _ _ = ⊥

valid_of_kinds :
    (m t : ObligationKind) (o : N3xbOffer)
    → o.maker_obligation.kind ≡ m
    → o.taker_obligation.kind ≡ t
    → (validate_n3xb_offer o ≡ ok tt) ↔ AreComplementary m t
unfolding validate_n3xb_offer
valid_of_kinds (ObligationKind.bitcoin n s) (ObligationKind.bitcoin n' s') o p q = ground arith
valid_of_kinds (ObligationKind.bitcoin n s) (ObligationKind.custom k) o p q =
    ground (arith, eq_iff k fatcrab_kind)
valid_of_kinds (ObligationKind.bitcoin n s) (ObligationKind.fiat c x) o p q = ground arith
valid_of_kinds (ObligationKind.custom k) (ObligationKind.bitcoin n s) o p q =
    ground (arith, eq_iff k fatcrab_kind)
valid_of_kinds (ObligationKind.custom k) (ObligationKind.custom k') o p q =
    ground (arith, eq_iff k fatcrab_kind, eq_iff k' fatcrab_kind)
valid_of_kinds (ObligationKind.custom k) (ObligationKind.fiat c x) o p q = ground arith
valid_of_kinds (ObligationKind.fiat c x) _ o p q = ground arith

-- An offer is accepted exactly when one side pays bitcoin and the other pays FatCrab, whatever the
-- amounts, the network and the settlement are.
pub validate_n3xb_offer_iff :
    (o : N3xbOffer)
    → (validate_n3xb_offer o ≡ ok tt)
      ↔ AreComplementary o.maker_obligation.kind o.taker_obligation.kind
validate_n3xb_offer_iff o =
    valid_of_kinds o.maker_obligation.kind o.taker_obligation.kind o refl refl

abbrev pub Accepted : {S : Type 0} → Outcome S N3xbOffer → Type 0
Accepted (ret offer s) = validate_n3xb_offer offer ≡ ok tt
Accepted (raise e s) = ⊥
Accepted (panic s) = ⊥

-- The offer that a taker creates for an order on a network with an n3xb name passes the maker's
-- check.
pub create_n3xb_offer-Accepted :
    {S : Type 0} (f : Float) (o : FatCrabOrder) (s : S)
    → o.network ≢ Network.other
    → Accepted (create_n3xb_offer f o s)
unfolding create_n3xb_offer validate_n3xb_offer
create_n3xb_offer-Accepted f o s known = ground arith

-- ===== src/Order/Reading.antt =====
-- What an order that was read from an n3xb order says, for any kinds in any iteration order.
use mathlib.Core.Option
use fatcrab_trading.Base.{◌≡◌, refl, arith, Option, none, some}
use fatcrab_trading.Action.{Outcome, ret, raise, panic, for_each}
use fatcrab_trading.Action.Rules.{Ensures, >>=-Ensures, for_each-Ensures}
use fatcrab_trading.Common.{Network, Float, F64}
use fatcrab_trading.N3xb.{N3xbOrder, ObligationKind}
use fatcrab_trading.Order.{
  FatCrabOrderType, buy, sell, FatCrabOrder, Scan, from_n3xb_order, scan_maker_kind,
  scan_taker_kind, found_order, from_n3xb_order_scan, scan_start, drop_locals,
}

-- The amount and the price that the n3xb order states, by the type of the order.
abbrev pub stated_amount : Float → N3xbOrder → FatCrabOrderType → Option F64
stated_amount f order sell = some order.maker_obligation.amount
stated_amount f order buy =
    Option.map (f.mul order.maker_obligation.amount) order.taker_obligation.limit_rate

abbrev pub stated_price : Float → N3xbOrder → FatCrabOrderType → Option F64
stated_price f order sell = order.taker_obligation.limit_rate
stated_price f order buy = Option.map f.recip order.taker_obligation.limit_rate

abbrev Found : Float → N3xbOrder → Option FatCrabOrderType → Scan → Type 0
Found f order none s = s.intended_order_kind ≡ none
Found f order (some kind) s =
    (s.intended_order_kind ≡ some kind)
    × (s.amount ≡ stated_amount f order kind)
    × (s.price ≡ stated_price f order kind)

-- Between two rounds.
abbrev IsScanned : Float → N3xbOrder → Scan → Type 0
IsScanned f order s = Found f order s.fatcrab_order_kind s

module _ (f : Float) (order : N3xbOrder) where
  scan_maker_kind-IsScanned :
      (network : Network) (kind : ObligationKind) (s : Scan)
      → IsScanned f order s
      → Ensures (λ _. IsScanned f order) (scan_maker_kind f order network kind s)
  unfolding scan_maker_kind
  scan_maker_kind-IsScanned network (ObligationKind.custom c) s h = ground arith
  scan_maker_kind-IsScanned network (ObligationKind.bitcoin n m) s h = ground arith
  scan_maker_kind-IsScanned network (ObligationKind.fiat c m) s h = h

  scan_taker_kind-IsScanned :
      (kind : ObligationKind) (s : Scan)
      → IsScanned f order s
      → Ensures (λ _. IsScanned f order) (scan_taker_kind kind s)
  unfolding scan_taker_kind
  scan_taker_kind-IsScanned (ObligationKind.custom c) s h = ground arith
  scan_taker_kind-IsScanned (ObligationKind.bitcoin n m) s h = ground arith
  scan_taker_kind-IsScanned (ObligationKind.fiat c m) s h = h

  -- The order carries the id of the n3xb order and the network of the reader, and its amount and
  -- price are those that the n3xb order states for its type.
  abbrev pub States : Network → FatCrabOrder → Type 0
  States network o =
      (o.trade_uuid ≡ order.trade_uuid)
      × (o.network ≡ network)
      × (some o.amount ≡ stated_amount f order o.order_type)
      × (some o.price ≡ stated_price f order o.order_type)

  found_order-States :
      (network : Network) (s : Scan)
      → IsScanned f order s
      → Ensures
          (λ o _. States network o)
          (found_order order.trade_uuid network s.fatcrab_order_kind s.amount s.price s)
  unfolding found_order
  found_order-States network s h = ground arith

  from_n3xb_order_scan-States :
      (network : Network)
      → Ensures (λ o _. States network o) (from_n3xb_order_scan f order network scan_start)
  unfolding from_n3xb_order_scan
  from_n3xb_order_scan-States network =
      >>=-Ensures (λ _. IsScanned f order) (λ o _. States network o)
        (for_each (scan_maker_kind f order network) order.maker_obligation.kinds) _ scan_start
        (for_each-Ensures (IsScanned f order) (scan_maker_kind f order network)
          (λ kind s h. scan_maker_kind-IsScanned network kind s h) order.maker_obligation.kinds
          scan_start refl)
        (λ _ s h.
          >>=-Ensures (λ _. IsScanned f order) (λ o _. States network o)
            (for_each scan_taker_kind order.taker_obligation.kinds) _ s
            (for_each-Ensures (IsScanned f order) scan_taker_kind
              (λ kind s h. scan_taker_kind-IsScanned kind s h) order.taker_obligation.kinds s h)
            (λ _ t k. found_order-States network t k))

  -- An order that is read from an n3xb order, whatever kinds that lists in whatever order, carries
  -- the id of the n3xb order and the network of the reader, and the amount and the price that the
  -- n3xb order states for its type.
  pub from_n3xb_order-States :
      {S : Type 0} (network : Network) (o : FatCrabOrder) (s t : S)
      → from_n3xb_order f order network s ≡ ret o t
      → States network o
  unfolding from_n3xb_order
  from_n3xb_order-States network o s t e =
      go (from_n3xb_order_scan f order network scan_start) (from_n3xb_order_scan-States network) e
    where
      go :
          (r : Outcome Scan FatCrabOrder)
          → Ensures (λ o _. States network o) r
          → drop_locals r s ≡ ret o t
          → States network o
      go (ret a u) h e = ground arith
      go (raise x u) h e = cc
      go (panic u) h e = cc

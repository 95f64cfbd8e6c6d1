-- ===== src/Trader/Queries.antt =====
-- src/trader.rs: the queries of the trader, for its own trades and for the orders of others. An accessor
-- is the task that it calls.
use fatcrab_trading.Base.{Bool, true, false, Option, none, some, List, [], ◌∷◌}
use fatcrab_trading.Base.Dict.{Uuid, Dict, insert}
use fatcrab_trading.Action.{Result, Action, pure, ◌>>=◌, unwrap, or_convert}
use fatcrab_trading.Error.{ExternalError}
use fatcrab_trading.Error
use fatcrab_trading.Common.{Network, Float}
use fatcrab_trading.N3xb.{BitcoinNetwork, ObligationKind, onchain, OrderEnvelope}
use fatcrab_trading.Order.{
  FatCrabOrderType, buy, sell, FatCrabOrderEnvelope, fatcrab_kind, n3xb_network, from_n3xb_order,
}
use fatcrab_trading.Actor.{must}
use fatcrab_trading.Maker
use fatcrab_trading.Maker.Types.{MakerEffect}
use fatcrab_trading.Taker
use fatcrab_trading.Taker.Types.{TakerEffect}
use fatcrab_trading.Trader.{FatCrabTrader, Task}

abbrev pub MakerTask : Type 0
MakerTask = Task Maker.FatCrabMakerActor MakerEffect

abbrev pub TakerTask : Type 0
TakerTask = Task Taker.FatCrabTakerActor TakerEffect

abbrev pub is_buy_maker : MakerTask → Bool
is_buy_maker task = elim task.self.inner [ Maker.buy_actor b ↦ true | Maker.sell_actor s ↦ false ]

abbrev pub is_buy_taker : TakerTask → Bool
is_buy_taker task = elim task.self.inner [ Taker.buy_actor b ↦ true | Taker.sell_actor s ↦ false ]

-- The loop of the four getters: what is of the kind goes into the new map.
insert_if : {V : Type 0} → Bool → Uuid → V → Dict V → Dict V
insert_if true k v found = insert k v found
insert_if false k v found = found

unfoldable pub collect : {V : Type 0} → (V → Bool) → Dict V → Dict V → Dict V
unfolding insert_if
collect is_wanted [] found = found
collect is_wanted ((k, v) ∷ d) found = collect is_wanted d (insert_if (is_wanted v) k v found)

abbrev pub not_of : {V : Type 0} → (V → Bool) → V → Bool
not_of f v = elim (f v) [ true ↦ false | false ↦ true ]

abbrev pub get_makers : FatCrabTrader → Dict MakerTask
get_makers t = t.makers

abbrev pub get_takers : FatCrabTrader → Dict TakerTask
get_takers t = t.takers

abbrev pub get_buy_makers : FatCrabTrader → Dict MakerTask
get_buy_makers t = collect is_buy_maker t.makers []

abbrev pub get_sell_makers : FatCrabTrader → Dict MakerTask
get_sell_makers t = collect (not_of is_buy_maker) t.makers []

abbrev pub get_buy_takers : FatCrabTrader → Dict TakerTask
get_buy_takers t = collect is_buy_taker t.takers []

abbrev pub get_sell_takers : FatCrabTrader → Dict TakerTask
get_sell_takers t = collect (not_of is_buy_taker) t.takers []

-- `FilterTag` of the n3xb crate, as far as it is used.
pub data FilterTag : Type 0 where
  maker_obligations taker_obligations : List ObligationKind → FilterTag

unfoldable pub filter_tags : BitcoinNetwork → Option FatCrabOrderType → List FilterTag
filter_tags network none = []
filter_tags network (some buy) =
    maker_obligations (ObligationKind.bitcoin network (some onchain) ∷ [])
    ∷ taker_obligations (ObligationKind.custom fatcrab_kind ∷ [])
    ∷ []
filter_tags network (some sell) =
    maker_obligations (ObligationKind.custom fatcrab_kind ∷ [])
    ∷ taker_obligations (ObligationKind.bitcoin network (some onchain) ∷ [])
    ∷ []

module _ {S : Type 0} (f : Float) (network : Network) where
  -- Each order of the answer; one that cannot be read panics.
  unfoldable pub read_orders : List OrderEnvelope → Action S (List FatCrabOrderEnvelope)
  read_orders [] = pure []
  read_orders (envelope ∷ envelopes) = do
    order ← must (from_n3xb_order f envelope.order network)
    orders ← read_orders envelopes
    pure (record { order = order; pubkey = envelope.pubkey; envelope = envelope } ∷ orders)

  -- `answer` is the n3xb manager's, to the filter.
  unfoldable pub query_orders :
      (List FilterTag → Result (List OrderEnvelope) ExternalError)
      → Option FatCrabOrderType
      → Action S (List FatCrabOrderEnvelope)
  unfolding filter_tags read_orders
  query_orders answer order_type = do
    n3xb ← unwrap (n3xb_network network)
    n3xb_orders ← or_convert (answer (filter_tags n3xb order_type)) Error.n3xb
    read_orders n3xb_orders

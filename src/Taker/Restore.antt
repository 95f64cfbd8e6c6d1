-- ===== src/Taker/Restore.antt =====
-- src/taker/data.rs and src/taker/taker.rs: a taker that is restored from the file of its data.
use fatcrab_trading.Base.{String, Option, none}
use fatcrab_trading.Base.Dict.{Uuid}
use fatcrab_trading.Action.{Action, pure, ◌>>=◌, gets}
use fatcrab_trading.Common.{Network}
use fatcrab_trading.Persist.Types.{Json}
use fatcrab_trading.Purse.{Purse}
use fatcrab_trading.Actor.{restored}
use fatcrab_trading.Taker.{FatCrabTakerActor, buy_actor, sell_actor}
use fatcrab_trading.Taker.Buy.{FatCrabTakerBuyDataStore, FatCrabTakerBuyData, FatCrabTakerBuyActor}
use fatcrab_trading.Taker.Sell.{
  FatCrabTakerSellDataStore, FatCrabTakerSellData, FatCrabTakerSellActor,
}

unfoldable pub buy_data_restore :
    Json FatCrabTakerBuyDataStore
    → Network
    → Option String
    → Action Purse (Uuid × FatCrabTakerBuyData)
buy_data_restore json network file =
    restored json (λ s. s.order_envelope.order.trade_uuid) network file

-- FatCrabTakerBuyActor::restore. Nobody is registered for notifications.
unfoldable pub buy_restore :
    Json FatCrabTakerBuyDataStore → Option String → Action Purse (Uuid × FatCrabTakerBuyActor)
unfolding buy_data_restore
buy_restore json file = do
  network ← gets (λ p. p.network)
  found ← buy_data_restore json network file
  pure (found.0, record { trade_uuid = found.0; buy_data = found.1; notif_tx = none })

unfoldable pub restore_buy_actor :
    Json FatCrabTakerBuyDataStore → Option String → Action Purse FatCrabTakerActor
unfolding buy_restore
restore_buy_actor json file = do
  found ← buy_restore json file
  pure (record { inner = buy_actor found.1; trade_uuid = found.0; notif_tx = none })

-- The network is that of the purse, as everywhere; the source's struct has none.
unfoldable pub sell_data_restore :
    Json FatCrabTakerSellDataStore
    → Network
    → Option String
    → Action Purse (Uuid × FatCrabTakerSellData)
sell_data_restore json network file =
    restored json (λ s. s.order_envelope.order.trade_uuid) network file

-- FatCrabTakerSellActor::restore. Nobody is registered for notifications.
unfoldable pub sell_restore :
    Json FatCrabTakerSellDataStore → Option String → Action Purse (Uuid × FatCrabTakerSellActor)
unfolding sell_data_restore
sell_restore json file = do
  network ← gets (λ p. p.network)
  found ← sell_data_restore json network file
  pure (found.0, record { trade_uuid = found.0; sell_data = found.1; notif_tx = none })

unfoldable pub restore_sell_actor :
    Json FatCrabTakerSellDataStore → Option String → Action Purse FatCrabTakerActor
unfolding sell_restore
restore_sell_actor json file = do
  found ← sell_restore json file
  pure (record { inner = sell_actor found.1; trade_uuid = found.0; notif_tx = none })

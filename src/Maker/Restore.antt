-- ===== src/Maker/Restore.antt =====
-- src/maker/data.rs and src/maker/maker.rs: a maker that is restored from the file of its data.
use fatcrab_trading.Base.{String, Option, none}
use fatcrab_trading.Base.Dict.{Uuid}
use fatcrab_trading.Action.{Action, pure, ◌>>=◌, gets}
use fatcrab_trading.Common.{Network}
use fatcrab_trading.Persist.Types.{Json}
use fatcrab_trading.Purse.{Purse}
use fatcrab_trading.Actor.{restored}
use fatcrab_trading.Maker.{FatCrabMakerActor, buy_actor, sell_actor}
use fatcrab_trading.Maker.Buy.{FatCrabMakerBuyDataStore, FatCrabMakerBuyData, FatCrabMakerBuyActor}
use fatcrab_trading.Maker.Sell.{
  FatCrabMakerSellDataStore, FatCrabMakerSellData, FatCrabMakerSellActor,
}

unfoldable pub buy_data_restore :
    Json FatCrabMakerBuyDataStore
    → Network
    → Option String
    → Action Purse (Uuid × FatCrabMakerBuyData)
buy_data_restore json network file = restored json (λ s. s.order.trade_uuid) network file

-- FatCrabMakerBuyActor::restore. Nobody is registered for notifications.
unfoldable pub buy_restore :
    Json FatCrabMakerBuyDataStore → Option String → Action Purse (Uuid × FatCrabMakerBuyActor)
unfolding buy_data_restore
buy_restore json file = do
  network ← gets (λ p. p.network)
  found ← buy_data_restore json network file
  pure (found.0, record { trade_uuid = found.0; buy_data = found.1; notif_tx = none })

unfoldable pub restore_buy_actor :
    Json FatCrabMakerBuyDataStore → Option String → Action Purse FatCrabMakerActor
unfolding buy_restore
restore_buy_actor json file = do
  found ← buy_restore json file
  pure (record { inner = buy_actor found.1; trade_uuid = found.0; notif_tx = none })

unfoldable pub sell_data_restore :
    Json FatCrabMakerSellDataStore
    → Network
    → Option String
    → Action Purse (Uuid × FatCrabMakerSellData)
sell_data_restore json network file = restored json (λ s. s.order.trade_uuid) network file

-- FatCrabMakerSellActor::restore. Nobody is registered for notifications.
unfoldable pub sell_restore :
    Json FatCrabMakerSellDataStore → Option String → Action Purse (Uuid × FatCrabMakerSellActor)
unfolding sell_data_restore
sell_restore json file = do
  network ← gets (λ p. p.network)
  found ← sell_data_restore json network file
  pure (found.0, record { trade_uuid = found.0; sell_data = found.1; notif_tx = none })

unfoldable pub restore_sell_actor :
    Json FatCrabMakerSellDataStore → Option String → Action Purse FatCrabMakerActor
unfolding sell_restore
restore_sell_actor json file = do
  found ← sell_restore json file
  pure (record { inner = sell_actor found.1; trade_uuid = found.0; notif_tx = none })

-- ===== src/Trader/Saved.antt =====
-- src/trader.rs: the directories of a trader whose trades were saved, and what a restart makes of them.
use fatcrab_trading.Base.{String, Option, none, some, List, [], ◌∷◌, ◌≡◌, true, ⊤}
use fatcrab_trading.Base.Dict.{Uuid, Dict}
use fatcrab_trading.Action.{Result, ok}
use fatcrab_trading.Error.{ExternalError}
use fatcrab_trading.Common.{Network}
use fatcrab_trading.Persist.{restore}
use fatcrab_trading.Maker
use fatcrab_trading.Maker.Types.{MakerEffect}
use fatcrab_trading.Taker
use fatcrab_trading.Taker.Types.{TakerEffect}
use fatcrab_trading.Trader.{FatCrabTrader, Task, spawn}
use fatcrab_trading.Trader.Directory.{DirEntry, Directory, Known}
use fatcrab_trading.Trader.Restore.{TradeJson, TradeDirs}
use fatcrab_trading.Trader.Recovery.{files}

abbrev pub MakerTask : Type 0
MakerTask = Task Maker.FatCrabMakerActor MakerEffect

abbrev pub TakerTask : Type 0
TakerTask = Task Taker.FatCrabTakerActor TakerEffect

-- The actor that a restart makes of a store.
abbrev pub buy_maker_of : Network → Maker.Buy.FatCrabMakerBuyDataStore → Maker.FatCrabMakerActor
buy_maker_of network store = record {
  inner = Maker.buy_actor (record {
    trade_uuid = store.order.trade_uuid;
    buy_data = record { store = store; is_queued = true; network = network };
    notif_tx = none;
  });
  trade_uuid = store.order.trade_uuid;
  notif_tx = none;
}

abbrev pub sell_maker_of : Network → Maker.Sell.FatCrabMakerSellDataStore → Maker.FatCrabMakerActor
sell_maker_of network store = record {
  inner = Maker.sell_actor (record {
    trade_uuid = store.order.trade_uuid;
    sell_data = record { store = store; is_queued = true; network = network };
    notif_tx = none;
  });
  trade_uuid = store.order.trade_uuid;
  notif_tx = none;
}

abbrev pub buy_taker_of : Network → Taker.Buy.FatCrabTakerBuyDataStore → Taker.FatCrabTakerActor
buy_taker_of network store = record {
  inner = Taker.buy_actor (record {
    trade_uuid = store.order_envelope.order.trade_uuid;
    buy_data = record { store = store; is_queued = true; network = network };
    notif_tx = none;
  });
  trade_uuid = store.order_envelope.order.trade_uuid;
  notif_tx = none;
}

abbrev pub sell_taker_of : Network → Taker.Sell.FatCrabTakerSellDataStore → Taker.FatCrabTakerActor
sell_taker_of network store = record {
  inner = Taker.sell_actor (record {
    trade_uuid = store.order_envelope.order.trade_uuid;
    sell_data = record { store = store; is_queued = true; network = network };
    notif_tx = none;
  });
  trade_uuid = store.order_envelope.order.trade_uuid;
  notif_tx = none;
}

module _ (network : Network) where
  abbrev pub chosen_buy_maker : MakerTask → Option Maker.FatCrabMakerActor
  chosen_buy_maker task = elim task.self.inner [
    | Maker.buy_actor b ↦ some (buy_maker_of network b.buy_data.store)
    | Maker.sell_actor s ↦ none
  ]

  abbrev pub chosen_sell_maker : MakerTask → Option Maker.FatCrabMakerActor
  chosen_sell_maker task = elim task.self.inner [
    | Maker.buy_actor b ↦ none
    | Maker.sell_actor s ↦ some (sell_maker_of network s.sell_data.store)
  ]

  abbrev pub chosen_buy_taker : TakerTask → Option Taker.FatCrabTakerActor
  chosen_buy_taker task = elim task.self.inner [
    | Taker.buy_actor b ↦ some (buy_taker_of network b.buy_data.store)
    | Taker.sell_actor s ↦ none
  ]

  abbrev pub chosen_sell_taker : TakerTask → Option Taker.FatCrabTakerActor
  chosen_sell_taker task = elim task.self.inner [
    | Taker.buy_actor b ↦ none
    | Taker.sell_actor s ↦ some (sell_taker_of network s.sell_data.store)
  ]

  -- The restarted actor: the store as it was, and nobody registered for notifications.
  abbrev pub restarted_maker : MakerTask → MakerTask
  restarted_maker task = elim task.self.inner [
    | Maker.buy_actor b ↦ spawn (buy_maker_of network b.buy_data.store)
    | Maker.sell_actor s ↦ spawn (sell_maker_of network s.sell_data.store)
  ]

  abbrev pub restarted_taker : TakerTask → TakerTask
  restarted_taker task = elim task.self.inner [
    | Taker.buy_actor b ↦ spawn (buy_taker_of network b.buy_data.store)
    | Taker.sell_actor s ↦ spawn (sell_taker_of network s.sell_data.store)
  ]

-- The names and the contents of the files, and what the n3xb manager has.
pub record Disk : Type 0 where
  pub print : Uuid → String
  pub maker_file : Uuid → Option String
  pub taker_file : Uuid → Option String
  pub n3xb_makers : Known
  pub n3xb_takers : Known

module _ (json : TradeJson) (disk : Disk) where
  abbrev HoldsMaker : Option String → Maker.FatCrabMakerInnerActor → Type 0
  HoldsMaker file (Maker.buy_actor b) = restore json.buy_maker file ≡ ok b.buy_data.store
  HoldsMaker file (Maker.sell_actor s) = restore json.sell_maker file ≡ ok s.sell_data.store

  abbrev HoldsTaker : Option String → Taker.FatCrabTakerInnerActor → Type 0
  HoldsTaker file (Taker.buy_actor b) = restore json.buy_taker file ≡ ok b.buy_data.store
  HoldsTaker file (Taker.sell_actor s) = restore json.sell_taker file ≡ ok s.sell_data.store

  -- Each maker's file holds its store, and the n3xb manager has it.
  abbrev pub AreSavedMakers : Dict MakerTask → Type 0
  AreSavedMakers [] = ⊤
  AreSavedMakers ((k, task) ∷ d) =
      (disk.n3xb_makers.parse_uuid (disk.print k) ≡ some k)
      × (disk.n3xb_makers.is_known k ≡ true)
      × HoldsMaker (disk.maker_file k) task.self.inner
      × AreSavedMakers d

  abbrev pub AreSavedTakers : Dict TakerTask → Type 0
  AreSavedTakers [] = ⊤
  AreSavedTakers ((k, task) ∷ d) =
      (disk.n3xb_takers.parse_uuid (disk.print k) ≡ some k)
      × (disk.n3xb_takers.is_known k ≡ true)
      × HoldsTaker (disk.taker_file k) task.self.inner
      × AreSavedTakers d

abbrev pub found : List (Result DirEntry ExternalError) → Directory
found entries = record { create_dir_all = none; read_dir = ok entries }

-- The four directories of a trader's trades.
abbrev pub dirs_of : Disk → Network → FatCrabTrader → TradeDirs
dirs_of disk network t = record {
  buy_makers = found (files disk.print disk.maker_file (chosen_buy_maker network) t.makers);
  sell_makers = found (files disk.print disk.maker_file (chosen_sell_maker network) t.makers);
  buy_takers = found (files disk.print disk.taker_file (chosen_buy_taker network) t.takers);
  sell_takers = found (files disk.print disk.taker_file (chosen_sell_taker network) t.takers);
}

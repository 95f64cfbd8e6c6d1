-- ===== src/Trader/Restore.antt =====
-- src/trader.rs: the restoring of the trades at the start of the trader.
use fatcrab_trading.Base.{List, [], ◌∷◌, ⊤}
use fatcrab_trading.Base.Dict.{Dict, extend}
use fatcrab_trading.Action.{Action, ret, raise, panic, pure, ◌>>=◌, ◌>>◌, modify}
use fatcrab_trading.Purse.{Purse}
use fatcrab_trading.Persist.Types.{Json}
use fatcrab_trading.Maker
use fatcrab_trading.Taker
use fatcrab_trading.Trader.{FatCrabTrader, Task, spawn}
use fatcrab_trading.Trader.Directory.{Directory, Known, restore_directory}

-- `serde_json` for the data of each of the four kinds of trades.
pub record TradeJson : Type 0 where
  pub buy_maker : Json Maker.Buy.FatCrabMakerBuyDataStore
  pub sell_maker : Json Maker.Sell.FatCrabMakerSellDataStore
  pub buy_taker : Json Taker.Buy.FatCrabTakerBuyDataStore
  pub sell_taker : Json Taker.Sell.FatCrabTakerSellDataStore

-- The directories makers/buy, makers/sell, takers/buy and takers/sell.
pub record TradeDirs : Type 0 where
  pub buy_makers : Directory
  pub sell_makers : Directory
  pub buy_takers : Directory
  pub sell_takers : Directory

abbrev pub Makers : Type 0
Makers = Dict Maker.FatCrabMakerActor

abbrev pub Takers : Type 0
Takers = Dict Taker.FatCrabTakerActor

abbrev pub spawn_all : {T E : Type 0} → Dict T → Dict (Task T E)
spawn_all [] = []
spawn_all ((uuid, actor) ∷ actors) = (uuid, spawn actor) ∷ spawn_all actors

abbrev pub with_makers : Makers → FatCrabTrader → FatCrabTrader
with_makers makers t = record t { makers = extend (spawn_all makers) t.makers }

abbrev pub with_takers : Takers → FatCrabTrader → FatCrabTrader
with_takers takers t = record t { takers = extend (spawn_all takers) t.takers }

-- While the trades are restored: the purse, and the tasks that were spawned, the latest first. `restore` of
-- a trade spawns its actor at once.
pub record Spawning : Type 0 where
  pub purse : Purse
  pub makers : List Maker.FatCrabMakerActor
  pub takers : List Taker.FatCrabTakerActor

abbrev pub begin : Purse → Spawning
begin p = record { purse = p; makers = []; takers = [] }

spawn_maker : Maker.FatCrabMakerActor → Action Spawning ⊤
spawn_maker actor = modify (λ s. record s { makers = actor ∷ s.makers })

spawn_taker : Taker.FatCrabTakerActor → Action Spawning ⊤
spawn_taker actor = modify (λ s. record s { takers = actor ∷ s.takers })

reading_purse : {A : Type 0} → Action Purse A → Action Spawning A
reading_purse m s = elim (m s.purse) [
  | ret a p ↦ ret a (record s { purse = p })
  | raise e p ↦ raise e (record s { purse = p })
  | panic p ↦ panic (record s { purse = p })
]

-- FatCrabMaker::restore and FatCrabTaker::restore.
unfoldable pub spawn_restored_maker :
    Action Purse Maker.FatCrabMakerActor → Action Spawning Maker.FatCrabMakerActor
unfolding spawn_maker reading_purse
spawn_restored_maker m = do actor ← reading_purse m; spawn_maker actor; pure actor

unfoldable pub spawn_restored_taker :
    Action Purse Taker.FatCrabTakerActor → Action Spawning Taker.FatCrabTakerActor
unfolding spawn_taker reading_purse
spawn_restored_taker m = do actor ← reading_purse m; spawn_taker actor; pure actor

module _ (json : TradeJson) (n3xb_makers n3xb_takers : Known) where
  unfoldable pub restore_buy_makers : Directory → Action Spawning Makers
  restore_buy_makers =
      restore_directory n3xb_makers
        (λ file. spawn_restored_maker (Maker.Restore.restore_buy_actor json.buy_maker file))

  unfoldable pub restore_sell_makers : Directory → Action Spawning Makers
  restore_sell_makers =
      restore_directory n3xb_makers
        (λ file. spawn_restored_maker (Maker.Restore.restore_sell_actor json.sell_maker file))

  unfoldable pub restore_buy_takers : Directory → Action Spawning Takers
  restore_buy_takers =
      restore_directory n3xb_takers
        (λ file. spawn_restored_taker (Taker.Restore.restore_buy_actor json.buy_taker file))

  unfoldable pub restore_sell_takers : Directory → Action Spawning Takers
  restore_sell_takers =
      restore_directory n3xb_takers
        (λ file. spawn_restored_taker (Taker.Restore.restore_sell_actor json.sell_taker file))

  -- The closure of `restore_maker_takers`: `chain` and `collect` put the sell trades after the buy
  -- trades.
  unfoldable pub restore_dirs : TradeDirs → Action Spawning (Makers × Takers)
  restore_dirs dirs = do
    buy_makers ← restore_buy_makers dirs.buy_makers
    sell_makers ← restore_sell_makers dirs.sell_makers
    buy_takers ← restore_buy_takers dirs.buy_takers
    sell_takers ← restore_sell_takers dirs.sell_takers
    pure (extend sell_makers (extend buy_makers []), extend sell_takers (extend buy_takers []))

  -- An error is logged, and there are no trades then; what was spawned before is not ended.
  unfoldable pub restore_maker_takers : TradeDirs → Action Spawning (Makers × Takers)
  restore_maker_takers dirs t = elim (restore_dirs dirs t) [
    | ret trades t' ↦ ret trades t'
    | raise e t' ↦ ret ([], []) t'
    | panic t' ↦ panic t'
  ]

  -- The result is all tasks that were spawned. Those that got into no map of the trader run on all the
  -- same, detached.
  unfoldable pub restore : TradeDirs → Action FatCrabTrader Spawning
  unfolding restore_maker_takers
  restore dirs t = elim (restore_maker_takers dirs (begin t.purse)) [
    | ret trades s ↦
        ret s (with_takers trades.1 (with_makers trades.0 (record t { purse = s.purse })))
    | raise e s ↦ raise e (record t { purse = s.purse })
    | panic s ↦ panic (record t { purse = s.purse })
  ]

-- ===== src/Trader/Startup/Tests.antt =====
-- A trader with a maker and a taker that is shut down and started again, with one directory that cannot
-- be read, and the queries.
use fatcrab_trading.Base.{◌≡◌, refl, arith, inl, inr, true, none, some, [], ◌∷◌}
use fatcrab_trading.Action.{ok, err, ret}
use fatcrab_trading.Common.{Network}
use fatcrab_trading.N3xb.{OrderEnvelope, BitcoinNetwork}
use fatcrab_trading.Order.{into, n3xb_network, buy}
use fatcrab_trading.Persist
use fatcrab_trading.Persist.Types.{Json}
use fatcrab_trading.Purse.Construction.{PurseFile, new}
use fatcrab_trading.Purse.Startup.{Starts, new-Starts}
use fatcrab_trading.Purse.{PurseDataStore}
use fatcrab_trading.Samples.{
  wallet, purse, float, buy_order, n3xb_order, buy_maker, sell_taker, maker_env, taker_env,
}
use fatcrab_trading.Maker
use fatcrab_trading.Maker.Types.{accepted_offer}
use fatcrab_trading.Taker
use fatcrab_trading.Taker.Types.{submitted_offer}
use fatcrab_trading.Trader.{FatCrabTrader, spawn}
use fatcrab_trading.Trader.Construction.{Start, new_with_key, empty}
use fatcrab_trading.Trader.Detached.{Detaches, restore-Detaches}
use fatcrab_trading.Trader.Directory.{Directory}
use fatcrab_trading.Trader.Samples.{unused, known, chain, backend, info}
use fatcrab_trading.Trader.Restore.{TradeJson, restore}
use fatcrab_trading.Trader.Saved.{Disk, dirs_of}
use fatcrab_trading.Trader.Startup.{IsSaved, IsUp, ComesBack, new_with_key-ComesBack}
use fatcrab_trading.Trader.Shutdown.{Ending, shutdown}
use fatcrab_trading.Trader.Closed.{Closes, shutdown-Closes}
use fatcrab_trading.Trader.Queries.{query_orders}
use fatcrab_trading.Trader.Listing.{Answers, query_orders-Answers, Finds, query_orders-Finds}

abbrev maker : Maker.Buy.FatCrabMakerBuyActor
maker = buy_maker accepted_offer (some "bc1q-peer")

abbrev taker : Taker.Sell.FatCrabTakerSellActor
taker = sell_taker submitted_offer none

abbrev trader : FatCrabTrader
trader = record {
  purse = purse;
  makers =
      (1, spawn (record { inner = Maker.buy_actor maker; trade_uuid = 1; notif_tx = some 3 })) ∷ [];
  takers =
      (1, spawn (record { inner = Taker.sell_actor taker; trade_uuid = 1; notif_tx = some 4 }))
      ∷ [];
}

abbrev trade_json : TradeJson
trade_json = record {
  buy_maker = record { to_string = λ s. ok "maker"; from_str = λ text. ok maker.buy_data.store };
  sell_maker = unused;
  buy_taker = unused;
  sell_taker = record { to_string = λ s. ok "taker"; from_str = λ text. ok taker.sell_data.store };
}

abbrev purse_json : Json PurseDataStore
purse_json = record { to_string = λ s. ok "purse"; from_str = λ text. ok purse.purse_data.store }

abbrev disk : Disk
disk = record {
  print = λ uuid. "1";
  maker_file = λ uuid. some "maker";
  taker_file = λ uuid. some "taker";
  n3xb_makers = known;
  n3xb_takers = known;
}

abbrev purse_file : PurseFile
purse_file = record { exists = true; text = some "purse" }

abbrev start : Start
start = record {
  trade_json = trade_json;
  purse_json = purse_json;
  backend = backend;
  create_purse_dir = none;
  purse_file = purse_file;
  n3xb_makers = known;
  n3xb_takers = known;
  trade_dirs = dirs_of disk Network.signet trader;
}

trader-IsSaved : IsSaved start disk info trader
unfolding Persist.restore n3xb_network
trader-IsSaved = record {
  network = refl;
  supported = refl;
  own_network = refl;
  has_file = refl;
  purse = refl;
  distinct_makers = (refl, tt);
  distinct_takers = (refl, tt);
  makers = (refl, refl, refl, tt);
  takers = (refl, refl, refl, tt);
  dirs = refl;
  n3xb_makers = refl;
  n3xb_takers = refl;
}

backend-IsUp : IsUp start info chain
backend-IsUp = record { connected = refl; wallet = refl; synced = refl; purse_dir = refl }

new_with_key-ComesBack_example : ComesBack trade_json disk trader 1 (new_with_key start info tt)
new_with_key-ComesBack_example =
    new_with_key-ComesBack start disk info chain trader 1 trader-IsSaved backend-IsUp

new-Starts_example :
    Starts purse_json backend purse_file Network.signet (new purse_json backend purse_file info tt)
new-Starts_example = new-Starts purse_json backend purse_file tt info

abbrev shut : Directory
shut = record { create_dir_all = none; read_dir = err "Permission denied" }

restore-Detaches_example :
    Detaches trade_json disk trader shut 1 (
      restore trade_json known known (record start.trade_dirs { sell_takers = shut }) (empty purse))
restore-Detaches_example =
    restore-Detaches trade_json disk trader shut 1 refl trader-IsSaved.makers trader-IsSaved.takers

abbrev ending : Ending
ending = record {
  purse_is_running = true;
  wallet = wallet;
  purse_join = none;
  maker_env = λ uuid. record maker_env { shutdown = some "offline" };
  taker_env = λ uuid. taker_env;
  n3xb_shutdown = none;
}

shutdown-Closes_example : Closes ending 1 trader (shutdown ending trader)
shutdown-Closes_example = shutdown-Closes ending 1 trader

abbrev posted : OrderEnvelope
posted = record { pubkey = "maker"; order = n3xb_order }

posted-into : into float buy_order tt ≡ ret n3xb_order tt
unfolding into
posted-into = refl

-- Another order, posted before.
abbrev other : OrderEnvelope
other = record posted { pubkey = "other" }

query_orders-Finds_example :
    Finds float buy_order posted
      (other ∷ posted ∷ [])
      (query_orders float Network.signet (λ tags. ok (other ∷ posted ∷ [])) (some buy) tt)
query_orders-Finds_example =
    query_orders-Finds float buy_order posted (λ tags. ok (other ∷ posted ∷ []))
      (other ∷ posted ∷ []) (λ e. ground arith) posted-into refl (inr (inl refl))

signet-known : n3xb_network Network.signet ≡ some BitcoinNetwork.signet
unfolding n3xb_network
signet-known = refl

query_orders-Answers_example :
    Answers float Network.signet tt
      (ok (posted ∷ []))
      (query_orders float Network.signet (λ tags. ok (posted ∷ [])) none tt)
query_orders-Answers_example =
    query_orders-Answers float Network.signet tt (λ tags. ok (posted ∷ [])) none signet-known

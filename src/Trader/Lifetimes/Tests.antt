-- ===== src/Trader/Lifetimes/Tests.antt =====
-- A taker that paid, a restart, and a taker that is asked to pay again.
use fatcrab_trading.Base.{refl, arith, inr, none, some, true, List, [], ◌∷◌}
use fatcrab_trading.Action.{ok, final}
use fatcrab_trading.Common.{Network}
use fatcrab_trading.Order.{n3xb_network}
use fatcrab_trading.Persist
use fatcrab_trading.Purse.{
  Purse, send_funds, set_fee, finish_and_broadcast, data_deallocate_funds, log_broadcast,
}
use fatcrab_trading.Purse.Invariant.{SpentOnceSince}
use fatcrab_trading.Samples.{purse, wallet, float, sell_taker, taker_env}
use fatcrab_trading.Taker
use fatcrab_trading.Taker.Types.{FatCrabTakerState, FatCrabTakerRequest, TakerEvent}
use fatcrab_trading.Trader.{FatCrabTrader, spawn}
use fatcrab_trading.Trader.Construction.{Start, new_with_key}
use fatcrab_trading.Trader.Samples.{unused, known, chain, backend, info}
use fatcrab_trading.Trader.Lifetimes.{StaysSpentOnce, restart-SpentOnce}
use fatcrab_trading.Trader.Restore.{TradeJson}
use fatcrab_trading.Trader.Saved.{Disk, dirs_of}
use fatcrab_trading.Trader.Startup.{IsSaved}
use fatcrab_trading.Trader.Types.{TraderEvent}

abbrev paid : Purse
paid = final (send_funds wallet 8 "bc1q-maker" purse)

abbrev taker : Taker.Sell.FatCrabTakerSellActor
taker = sell_taker FatCrabTakerState.notified_outbound (some "bc1q-maker")

abbrev trader : FatCrabTrader
trader = record {
  purse = paid;
  makers = [];
  takers =
      (1, spawn (record { inner = Taker.sell_actor taker; trade_uuid = 1; notif_tx = none })) ∷ [];
}

abbrev trade_json : TradeJson
trade_json = record {
  buy_maker = unused;
  sell_maker = unused;
  buy_taker = unused;
  sell_taker = record { to_string = λ s. ok "taker"; from_str = λ text. ok taker.sell_data.store };
}

abbrev disk : Disk
disk = record {
  print = λ uuid. "1";
  maker_file = λ uuid. none;
  taker_file = λ uuid. some "taker";
  n3xb_makers = known;
  n3xb_takers = known;
}

abbrev start : Start
start = record {
  trade_json = trade_json;
  purse_json = record { to_string = λ s. ok "purse"; from_str = λ text. ok paid.purse_data.store };
  backend = backend;
  create_purse_dir = none;
  purse_file = record { exists = true; text = some "purse" };
  n3xb_makers = known;
  n3xb_takers = known;
  trade_dirs = dirs_of disk Network.signet trader;
}

trader-IsSaved : IsSaved start disk info trader
unfolding Persist.restore n3xb_network send_funds set_fee finish_and_broadcast data_deallocate_funds
    log_broadcast
trader-IsSaved = record {
  network = refl;
  supported = refl;
  own_network = refl;
  has_file = refl;
  purse = refl;
  distinct_makers = tt;
  distinct_takers = (refl, tt);
  makers = tt;
  takers = (refl, refl, refl, tt);
  dirs = refl;
  n3xb_makers = refl;
  n3xb_takers = refl;
}

trader-SpentOnce : SpentOnceSince 0 8 paid
unfolding send_funds set_fee finish_and_broadcast data_deallocate_funds log_broadcast
trader-SpentOnce = record { distinct = (refl, tt); once = inr (refl, refl) }

abbrev retries : List TraderEvent
retries =
    TraderEvent.taker taker_env 1
      (TakerEvent.request (FatCrabTakerRequest.release_notify_peer none))
    ∷ TraderEvent.wallet_send_to_address wallet wallet wallet "bc1q-other" 50
    ∷ []

restart-SpentOnce_example : StaysSpentOnce float retries 1 8 (new_with_key start info tt)
unfolding send_funds set_fee finish_and_broadcast data_deallocate_funds log_broadcast
restart-SpentOnce_example =
    restart-SpentOnce float retries 0 8 start disk info chain trader trader-SpentOnce trader-IsSaved
      (record { connected = refl; wallet = refl; synced = refl; purse_dir = refl })
      (tt, (ground arith, tt))

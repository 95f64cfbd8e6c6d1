-- ===== src/Trader/Construction.antt =====
-- src/trader.rs: the start of the trader, with its purse and the trades of an earlier run.
use fatcrab_trading.Base.{⊤, Option, []}
use fatcrab_trading.Action.{Action, ret, raise, panic, ◌>>=◌, ◌>>◌, unwrap}
use fatcrab_trading.Error.{ExternalError}
use fatcrab_trading.Order.{n3xb_network}
use fatcrab_trading.Persist.Types.{Json}
use fatcrab_trading.Purse.{Purse, PurseDataStore}
use fatcrab_trading.Purse.Construction.{
  BlockchainInfo, network_of, Backend, PurseFile, new, unwrap_done,
}
use fatcrab_trading.Trader.{FatCrabTrader}
use fatcrab_trading.Trader.Directory.{Known}
use fatcrab_trading.Trader.Restore.{TradeJson, TradeDirs, restore}

abbrev pub empty : Purse → FatCrabTrader
empty p = record { purse = p; makers = []; takers = [] }

-- What the start gets from outside: `serde_json`, the backend, the files, and the trades that the
-- n3xb manager has.
pub record Start : Type 0 where
  pub trade_json : TradeJson
  pub purse_json : Json PurseDataStore
  pub backend : Backend
  pub create_purse_dir : Option ExternalError
  pub purse_file : PurseFile
  pub n3xb_makers : Known
  pub n3xb_takers : Known
  pub trade_dirs : TradeDirs

-- `trader.restore().await.unwrap()`.
restored_trader : Start → FatCrabTrader → Action ⊤ FatCrabTrader
restored_trader start t s =
    elim (restore start.trade_json start.n3xb_makers start.n3xb_takers start.trade_dirs t) [
      | ret x t' ↦ ret t' s
      | raise e t' ↦ panic s
      | panic t' ↦ panic s
    ]

-- The purse is made in a task of its own: where that panics, the source goes on and panics at the
-- first request to the purse, and the start is a panic here.
unfoldable pub new_with_key : Start → BlockchainInfo → Action ⊤ FatCrabTrader
unfolding restored_trader
new_with_key start info = do
  n3xb ← unwrap (n3xb_network (network_of info))
  unwrap_done start.create_purse_dir
  purse ← new start.purse_json start.backend start.purse_file info
  restored_trader start (empty purse)

-- ===== src/Trader/Startup.antt =====
-- src/trader.rs: a whole restart, of the purse and of the trades.
mod Tests
use fatcrab_trading.Base.{⊤, String, Option, none, some, ◌≡◌, ◌∙◌, ap, arith, true, is_some}
use fatcrab_trading.Base.Dict.{Uuid, HasDistinctKeys}
use fatcrab_trading.Action.{ok, Outcome, ret, raise, panic}
use fatcrab_trading.Order.{n3xb_network}
use fatcrab_trading.Persist.{restore}
use fatcrab_trading.Purse.{Purse}
use fatcrab_trading.Purse.Construction.{BlockchainInfo, network_of, Chain}
use fatcrab_trading.Purse.Startup.{restarted, connect, new-Restores}
use fatcrab_trading.Trader.{FatCrabTrader}
use fatcrab_trading.Trader.Construction.{Start, new_with_key, empty}
use fatcrab_trading.Trader.Restore.{TradeJson}
use fatcrab_trading.Trader.Saved.{Disk, AreSavedMakers, AreSavedTakers, dirs_of}
use fatcrab_trading.Trader.Restart.{Recovered, restore-Recovers}

-- What the trader has is what the files hold: the network is one that the n3xb crate knows, and that
-- of the purse and its data, and all stores are saved.
pub record IsSaved (start : Start) (disk : Disk) (info : BlockchainInfo) (t : FatCrabTrader)
    : Type 0 where
  pub network : t.purse.network ≡ network_of info
  pub supported : is_some (n3xb_network t.purse.network) ≡ true
  pub own_network : t.purse.purse_data.store.network ≡ t.purse.network
  pub has_file : start.purse_file.exists ≡ true
  pub purse : restore start.purse_json start.purse_file.text ≡ ok t.purse.purse_data.store
  pub distinct_makers : HasDistinctKeys t.makers
  pub distinct_takers : HasDistinctKeys t.takers
  pub makers : AreSavedMakers start.trade_json disk t.makers
  pub takers : AreSavedTakers start.trade_json disk t.takers
  pub dirs : start.trade_dirs ≡ dirs_of disk t.purse.network t
  pub n3xb_makers : start.n3xb_makers ≡ disk.n3xb_makers
  pub n3xb_takers : start.n3xb_takers ≡ disk.n3xb_takers

-- The backend answers, and the wallet can be made and synchronised.
pub record IsUp (start : Start) (info : BlockchainInfo) (chain : Chain) : Type 0 where
  pub connected : connect start.backend info ≡ ok chain
  pub wallet : start.backend.new_wallet (network_of info) ≡ none
  pub synced : chain.sync ≡ none
  pub purse_dir : start.create_purse_dir ≡ none

abbrev pub with_restarted : FatCrabTrader → FatCrabTrader
with_restarted t = record t { purse = restarted t.purse }

abbrev pub ComesBack : TradeJson → Disk → FatCrabTrader → Uuid → Outcome ⊤ FatCrabTrader → Type 0
ComesBack json disk t j (ret t' s) = Recovered json disk (with_restarted t) j t'
ComesBack json disk t j _ = ⊥

-- A whole restart. If the files hold what the trader had, and the backend answers, then the start
-- returns a trader with the same funds set aside, on the same network, and under each id with the
-- maker and the taker that it had there, with their stores, or with none where it had none.
pub new_with_key-ComesBack :
    (start : Start) (disk : Disk) (info : BlockchainInfo) (chain : Chain) (t : FatCrabTrader)
    (j : Uuid)
    → IsSaved start disk info t
    → IsUp start info chain
    → ComesBack start.trade_json disk t j (new_with_key start info tt)
unfolding new_with_key
new_with_key-ComesBack start disk info chain t j saved up =
    let recovers =
      restore-Recovers start.trade_json disk (with_restarted t) j saved.distinct_makers
        saved.distinct_takers saved.makers saved.takers in
    ground (
      arith,
      new-Restores start.purse_json start.backend start.purse_file tt info t.purse chain
          saved.network saved.own_network saved.has_file saved.purse up.connected
          (ap (λ n. start.backend.new_wallet n) saved.network ∙ up.wallet) up.synced,
      recovers,
    )

-- ===== src/Trader/Samples.antt =====
-- A backend that answers, an n3xb manager that knows each trade as the first, and text conversions.
use fatcrab_trading.Base.{true, none, some}
use fatcrab_trading.Action.{ok, err}
use fatcrab_trading.Common.{Network}
use fatcrab_trading.Persist.Types.{Json}
use fatcrab_trading.Purse.Construction.{BlockchainInfo, electrum, Chain, Backend}
use fatcrab_trading.Trader.Directory.{Known}

abbrev pub unused : {Store : Type 0} → Json Store
unused = record { to_string = λ s. err "unused"; from_str = λ text. err "unused" }

abbrev pub known : Known
known = record { parse_uuid = λ stem. some 1; is_known = λ uuid. true }

abbrev pub chain : Chain
chain = record { get_height = ok 120; sync = none }

abbrev pub backend : Backend
backend = record {
  electrum_client = λ url. ok chain;
  from_config = λ config. ok chain;
  new_wallet = λ network. none;
  wallet_name = "Purse-1";
}

abbrev pub info : BlockchainInfo
info = electrum "tcp://localhost" Network.signet

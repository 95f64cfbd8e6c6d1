-- ===== src/Trader/Types.antt =====
-- src/trader.rs and the channels of src/purse, src/maker and src/taker: what can happen next.
use fatcrab_trading.Base.{ℕ, String}
use fatcrab_trading.Base.Dict.{Uuid}
use fatcrab_trading.Common.{Address}
use fatcrab_trading.Order.{FatCrabOrder, FatCrabOrderEnvelope}
use fatcrab_trading.Purse.{Bdk}
use fatcrab_trading.Purse.Actor.{PurseRequest}
use fatcrab_trading.Maker.Types.{MakerEnv, MakerEvent}
use fatcrab_trading.Taker.Types.{TakerEnv, TakerEvent}

-- A call of the trader, a request to the purse, or a round of an actor.
pub data TraderEvent : Type 0 where
  wallet : Bdk → PurseRequest → TraderEvent
  wallet_send_to_address : Bdk → Bdk → Bdk → Address → ℕ → TraderEvent
  new_buy_maker : MakerEnv → FatCrabOrder → String → TraderEvent
  new_sell_maker : MakerEnv → FatCrabOrder → TraderEvent
  new_buy_taker : TakerEnv → FatCrabOrderEnvelope → TraderEvent
  new_sell_taker : TakerEnv → FatCrabOrderEnvelope → String → TraderEvent
  maker : MakerEnv → Uuid → MakerEvent → TraderEvent
  taker : TakerEnv → Uuid → TakerEvent → TraderEvent

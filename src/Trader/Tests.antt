-- ===== src/Trader/Tests.antt =====
-- Two trades and a withdrawal that share a purse.
use fatcrab_trading.Base.{◌≡◌, some, refl, arith, List, [], ◌∷◌, inl}
use fatcrab_trading.Samples.{
  purse, wallet, float, buy_order, offer_envelope, accepting, maker_env, taker_env, order_envelope,
}
use fatcrab_trading.Maker.Types.{FatCrabMakerRequest, MakerNotif, MakerEvent}
use fatcrab_trading.Taker.Types.{FatCrabTakerRequest, TakerNotif, TakerEvent}
use fatcrab_trading.Purse.Invariant.{SpentOnce}
use fatcrab_trading.Trader.{FatCrabTrader, advance_all, wallet_send_to_address}
use fatcrab_trading.Purse.{
  Bdk, get_balances, allocate_funds, send_funds, finish_and_broadcast, set_fee,
}
use fatcrab_trading.Base.Dict.{get}
use fatcrab_trading.Common.{balances_from}
use fatcrab_trading.Action.{final}
use fatcrab_trading.Trader.Withdrawal.{funds, Withdraws, wallet_send_to_address-Withdraws}
use fatcrab_trading.Trader.Types.{TraderEvent}
use fatcrab_trading.Trader.Safety.{AreNotReissued, advance_all-SpentOnce}

abbrev trader : FatCrabTrader
trader = record { purse = purse; makers = []; takers = [] }

abbrev day : List TraderEvent
day =
    TraderEvent.new_buy_maker maker_env buy_order "fatcrab-own"
    ∷ TraderEvent.maker maker_env 1 (MakerEvent.request FatCrabMakerRequest.post_new_order)
    ∷ TraderEvent.new_sell_taker taker_env order_envelope "fatcrab-own"
    ∷ TraderEvent.maker maker_env 1 (MakerEvent.notification (MakerNotif.offer offer_envelope))
    ∷ TraderEvent.taker taker_env 1 (TakerEvent.request FatCrabTakerRequest.take_order)
    ∷ TraderEvent.wallet_send_to_address wallet wallet wallet "bc1q-other" 50
    ∷ TraderEvent.taker taker_env 1 (TakerEvent.notification (TakerNotif.trade_rsp accepting))
    ∷ []

day-AreNotReissued : AreNotReissued 8 day
day-AreNotReissued = ground arith

trader-SpentOnce : SpentOnce 8 trader.purse
trader-SpentOnce = record { distinct = (refl, (refl, tt)); once = inl refl }

advance_all-SpentOnce_example : SpentOnce 8 (advance_all float day trader).purse
advance_all-SpentOnce_example =
    advance_all-SpentOnce 8 float day trader day-AreNotReissued trader-SpentOnce

wallet_send_to_address-Withdraws_example :
    Withdraws wallet.new_uuid "bc1q-other" 50 trader
      (wallet_send_to_address wallet wallet wallet "bc1q-other" 50 trader)
wallet_send_to_address-Withdraws_example =
    wallet_send_to_address-Withdraws wallet wallet wallet "bc1q-other" 50 trader

-- A backend that refuses the broadcast leaves the sats set aside.
abbrev refusing : Bdk
refusing = record wallet { broadcast = λ tx. some "refused" }

refused-KeepsFunds :
    get wallet.new_uuid
      (funds (final (wallet_send_to_address wallet wallet refusing "bc1q-other" 50 trader)).purse)
    ≡ some 50
unfolding wallet_send_to_address get_balances allocate_funds send_funds finish_and_broadcast set_fee
    balances_from
refused-KeepsFunds = refl

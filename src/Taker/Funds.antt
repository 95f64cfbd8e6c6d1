-- ===== src/Taker/Funds.antt =====
-- What the events of a taker do to the purse.
use fatcrab_trading.Base.{List, [], ◌∷◌, arith}
use fatcrab_trading.Base.Dict.{Uuid}
use fatcrab_trading.Action.{final}
use fatcrab_trading.Common.{Address}
use fatcrab_trading.Actor.{Ctx}
use fatcrab_trading.N3xb.{TradeResponseEnvelope}
use fatcrab_trading.TradeRsp.{FatCrabTradeRsp, from_n3xb_trade_rsp}
use fatcrab_trading.Taker.{
  World, take_order, get_order_details, get_state, get_peer_btc_txid, query_peer_msg,
}
use fatcrab_trading.Taker.Buy
use fatcrab_trading.Taker.Sell
use fatcrab_trading.Taker.Release.{SellCtx, release_btc_notify_peer_cases}
use fatcrab_trading.Taker.Notifications.{
  register_notif_tx, unregister_notif_tx, handle_trade_rsp_notif, handle_peer_notif,
}
use fatcrab_trading.Taker.Run.{handle_request, handle_notif, handle_event, shut_down, run}
use fatcrab_trading.Taker.Types.{TakerEffect, TakerEnv, FatCrabTakerRequest, TakerNotif, TakerEvent}
use fatcrab_trading.Purse.{Purse}
use fatcrab_trading.Purse.Kept.{IsKept, SpentOnce-IsKept}
use fatcrab_trading.Purse.Invariant.{SpentOnce}

module _ (P : Purse → Type 0) (kept : IsKept P) (env : TakerEnv) where
  check_btc_tx_confirmation-kept :
      (c : Ctx Buy.FatCrabTakerBuyActor TakerEffect)
      → P c.purse
      → P (final (Buy.check_btc_tx_confirmation env c)).purse
  unfolding Buy.check_btc_tx_confirmation
  check_btc_tx_confirmation-kept c h = grind (arith, kept.conf)

  pay_and_notify-kept :
      (a : Address) (c : SellCtx) → P c.purse → P (final (Sell.pay_and_notify env a c)).purse
  unfolding Sell.pay_and_notify
  pay_and_notify-kept a c h =
      ground (arith, kept.send env.wallet c.self.sell_data.store.btc_funds_id a c.purse h)

  release_btc_notify_peer-kept :
      (c : SellCtx) → P c.purse → P (final (Sell.release_btc_notify_peer env c)).purse
  release_btc_notify_peer-kept c h =
      release_btc_notify_peer_cases (λ o. P (final o).purse) env c (λ _. h) h
        (λ a _. pay_and_notify-kept a c h)

  answer-kept :
      (t : FatCrabTradeRsp) (n : TradeResponseEnvelope) (c : SellCtx)
      → P c.purse
      → P (final (Sell.handle_trade_rsp_notif env t n c)).purse
  unfolding Sell.handle_trade_rsp_notif
  answer-kept (FatCrabTradeRsp.accept a) n c h = grind (arith, release_btc_notify_peer-kept)
  answer-kept FatCrabTradeRsp.reject n c h =
      ground (arith, kept.free c.self.sell_data.store.btc_funds_id c.purse h)

  handle_request-kept :
      (r : FatCrabTakerRequest) (c : World) → P c.purse → P (final (handle_request env r c)).purse
  unfolding handle_request take_order get_order_details get_state get_peer_btc_txid query_peer_msg
      shut_down register_notif_tx unregister_notif_tx Buy.query_trade_rsp Sell.query_trade_rsp
      Buy.notify_peer Sell.release_notify_peer Sell.check_btc_tx_confirmation Buy.trade_complete
      Sell.trade_complete
  handle_request-kept (FatCrabTakerRequest.release_notify_peer t) c h =
      grind (arith, release_btc_notify_peer-kept)
  handle_request-kept FatCrabTakerRequest.check_btc_tx_conf c h =
      grind (arith, check_btc_tx_confirmation-kept)
  handle_request-kept _ c h = ground arith

  handle_notif-kept :
      (n : TakerNotif) (c : World) → P c.purse → P (final (handle_notif env n c)).purse
  unfolding handle_notif handle_trade_rsp_notif handle_peer_notif Buy.handle_peer_notif
      Sell.handle_peer_notif Buy.handle_trade_rsp_notif from_n3xb_trade_rsp
  handle_notif-kept (TakerNotif.trade_rsp o) c h = grind (arith, answer-kept)
  handle_notif-kept (TakerNotif.peer o) c h = ground arith
  handle_notif-kept (TakerNotif.failed e) c h = h

  pub taker_handle_event-kept :
      (e : TakerEvent) (c : World) → P c.purse → P (final (handle_event env e c)).purse
  unfolding handle_event
  taker_handle_event-kept (TakerEvent.request r) c h = handle_request-kept r c h
  taker_handle_event-kept (TakerEvent.notification n) c h = handle_notif-kept n c h

pub taker_run-kept :
    (P : Purse → Type 0) (kept : IsKept P) (events : List (TakerEnv × TakerEvent)) (c : World)
    → P c.purse
    → P (final (run events c)).purse
unfolding run
taker_run-kept P kept [] c h = h
taker_run-kept P kept ((env, e) ∷ events) c h = ground (
  arith,
  taker_handle_event-kept P kept env e c h,
  taker_run-kept P kept events (final (handle_event env e c)),
)

-- Funds that were never broadcast so far, or once and are gone, stay so over every run of a
-- taker, be they its own or those of another trade. This supposes one entry for an id at the
-- start.
pub taker_run-SpentOnce :
    (id : Uuid) (events : List (TakerEnv × TakerEvent)) (c : World)
    → SpentOnce id c.purse
    → SpentOnce id (final (run events c)).purse
taker_run-SpentOnce id events c h = taker_run-kept (SpentOnce id) (SpentOnce-IsKept id) events c h

-- ===== src/Maker/Funds.antt =====
-- What the events of a maker do to the purse.
use fatcrab_trading.Base.{List, [], ◌∷◌, arith}
use fatcrab_trading.Base.Dict.{Uuid}
use fatcrab_trading.Action.{final}
use fatcrab_trading.Common.{Address}
use fatcrab_trading.Actor.{Ctx}
use fatcrab_trading.Maker.{
  World, post_new_order, get_order_details, get_state, get_peer_pubkey, get_peer_btc_txid,
  query_offers, query_peer_msg,
}
use fatcrab_trading.Maker.Buy
use fatcrab_trading.Maker.Sell
use fatcrab_trading.Maker.Release.{release_notify_peer_cases}
use fatcrab_trading.Maker.Notifications.{
  register_notif_tx, unregister_notif_tx, handle_offer_notif, handle_peer_notif,
}
use fatcrab_trading.Maker.Run.{handle_request, handle_notif, handle_event, shut_down, run}
use fatcrab_trading.Maker.Types.{MakerEffect, MakerEnv, FatCrabMakerRequest, MakerNotif, MakerEvent}
use fatcrab_trading.Purse.Kept.{IsKept, SpentOnce-IsKept}
use fatcrab_trading.Purse.Invariant.{SpentOnce}
use fatcrab_trading.Purse.{Purse}

module _ (P : Purse → Type 0) (kept : IsKept P) (env : MakerEnv) where
  cancel_order-kept :
      (c : Ctx Buy.FatCrabMakerBuyActor MakerEffect)
      → P c.purse
      → P (final (Buy.cancel_order env c)).purse
  unfolding Buy.cancel_order
  cancel_order-kept c h = ground (arith, kept.free c.self.buy_data.store.btc_funds_id c.purse h)

  pay_and_notify-kept :
      (a : Address) (c : Ctx Buy.FatCrabMakerBuyActor MakerEffect)
      → P c.purse
      → P (final (Buy.pay_and_notify env a c)).purse
  unfolding Buy.pay_and_notify
  pay_and_notify-kept a c h =
      ground (arith, kept.send env.wallet c.self.buy_data.store.btc_funds_id a c.purse h)

  release_notify_peer-kept :
      (c : Ctx Buy.FatCrabMakerBuyActor MakerEffect)
      → P c.purse
      → P (final (Buy.release_notify_peer env c)).purse
  release_notify_peer-kept c h =
      release_notify_peer_cases (λ o. P (final o).purse) env c (λ _. ground arith) h
        (λ a _. ground (arith, pay_and_notify-kept a c h))

  check_btc_tx_confirmation-kept :
      (c : Ctx Sell.FatCrabMakerSellActor MakerEffect)
      → P c.purse
      → P (final (Sell.check_btc_tx_confirmation env c)).purse
  unfolding Sell.check_btc_tx_confirmation
  check_btc_tx_confirmation-kept c h = grind (arith, kept.conf)

  handle_request-kept :
      (r : FatCrabMakerRequest) (c : World) → P c.purse → P (final (handle_request env r c)).purse
  unfolding handle_request post_new_order get_order_details get_state get_peer_pubkey
      get_peer_btc_txid query_offers query_peer_msg shut_down register_notif_tx unregister_notif_tx
      Sell.cancel_order Buy.trade_response Sell.trade_response Sell.notify_peer
      Buy.check_btc_tx_confirmation Buy.trade_complete Sell.trade_complete
  handle_request-kept FatCrabMakerRequest.cancel_order c h = grind (arith, cancel_order-kept)
  handle_request-kept (FatCrabMakerRequest.release_notify_peer t) c h =
      grind (arith, release_notify_peer-kept)
  handle_request-kept FatCrabMakerRequest.check_btc_tx_conf c h =
      grind (arith, check_btc_tx_confirmation-kept)
  handle_request-kept _ c h = ground arith

  handle_notif-kept :
      (n : MakerNotif) (c : World) → P c.purse → P (final (handle_notif env n c)).purse
  unfolding handle_notif handle_offer_notif handle_peer_notif Buy.handle_peer_notif
      Sell.handle_peer_notif
  handle_notif-kept (MakerNotif.offer o) c h = ground arith
  handle_notif-kept (MakerNotif.peer o) c h = ground arith
  handle_notif-kept (MakerNotif.failed e) c h = h

  pub handle_event-kept :
      (e : MakerEvent) (c : World) → P c.purse → P (final (handle_event env e c)).purse
  unfolding handle_event
  handle_event-kept (MakerEvent.request r) c h = handle_request-kept r c h
  handle_event-kept (MakerEvent.notification n) c h = handle_notif-kept n c h

-- Over a whole run, whatever the events are and whatever answers they get.
pub run-kept :
    (P : Purse → Type 0) (kept : IsKept P) (events : List (MakerEnv × MakerEvent)) (c : World)
    → P c.purse
    → P (final (run events c)).purse
unfolding run
run-kept P kept [] c h = h
run-kept P kept ((env, e) ∷ events) c h = ground (
  arith,
  handle_event-kept P kept env e c h,
  run-kept P kept events (final (handle_event env e c)),
)

-- Funds that were never broadcast so far, or once and are gone, stay so over every run of a
-- maker, be they its own or those of another trade. This supposes one entry for an id at the
-- start.
pub maker_run-SpentOnce :
    (id : Uuid) (events : List (MakerEnv × MakerEvent)) (c : World)
    → SpentOnce id c.purse
    → SpentOnce id (final (run events c)).purse
maker_run-SpentOnce id events c h = run-kept (SpentOnce id) (SpentOnce-IsKept id) events c h

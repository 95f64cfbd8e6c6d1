-- ===== src/Maker/Isolation.antt =====
-- The funds of other trades are out of a maker's reach.
use fatcrab_trading.Base.{ℕ, Option, ◌≡◌, ◌≢◌, refl, arith}
use fatcrab_trading.Base.Dict.{Uuid, get, get-remove_ne}
use fatcrab_trading.Action.{Outcome, ret, raise, panic, final}
use fatcrab_trading.Common.{Address, Txid}
use fatcrab_trading.Maker.{
  World, buy_actor, post_new_order, get_order_details, get_state, get_peer_pubkey,
  get_peer_btc_txid, query_offers, query_peer_msg,
}
use fatcrab_trading.Maker.Buy
use fatcrab_trading.Maker.Sell
use fatcrab_trading.Maker.Release.{BuyCtx, buy_ctx, release_notify_peer_cases}
use fatcrab_trading.Maker.Payment.{release-purse, pay_and_notify-purse}
use fatcrab_trading.Maker.Notifications.{
  register_notif_tx, unregister_notif_tx, handle_offer_notif, handle_peer_notif,
}
use fatcrab_trading.Maker.Run.{handle_request, handle_notif, handle_event, shut_down}
use fatcrab_trading.Maker.Types.{MakerEnv, FatCrabMakerRequest, MakerNotif, MakerEvent}
use fatcrab_trading.Purse.Spending.{SendOutcome, send_funds-SendOutcome}
use fatcrab_trading.Purse.{send_funds, Purse, free_funds, data_deallocate_funds}

abbrev pub allocated : Uuid → Purse → Option ℕ
allocated id p = get id p.purse_data.store.allocated_funds

pub SendOutcome-allocated :
    (other id : Uuid) (a : Address) (p : Purse) (o : Outcome Purse Txid)
    → other ≢ id
    → SendOutcome id a p o
    → allocated other (final o) ≡ allocated other p
SendOutcome-allocated other id a p (ret t p') ne s =
    rw s.deallocated (get-remove_ne other id p.purse_data.store.allocated_funds ne)
SendOutcome-allocated other id a p (raise e p') ne s = rw s refl
SendOutcome-allocated other id a p (panic p') ne s = absurd s

module _ (env : MakerEnv) (other : Uuid) where
  release_notify_peer-allocated :
      (c : BuyCtx)
      → other ≢ c.self.buy_data.store.btc_funds_id
      → allocated other (final (Buy.release_notify_peer env c)).purse ≡ allocated other c.purse
  release_notify_peer-allocated c ne =
      let id = c.self.buy_data.store.btc_funds_id in
      let Same = (λ (p : Purse). allocated other p ≡ allocated other c.purse) in
      release_notify_peer_cases (λ o. Same (final o).purse) env c (λ _. ground arith) refl
        (λ a _. ground (
          arith,
          pay_and_notify-purse env a c,
          SendOutcome-allocated other id a c.purse (send_funds env.wallet id a c.purse) ne
              (send_funds-SendOutcome env.wallet id c.purse a),
        ))

  cancel_order-allocated :
      (c : BuyCtx)
      → other ≢ c.self.buy_data.store.btc_funds_id
      → allocated other (final (Buy.cancel_order env c)).purse ≡ allocated other c.purse
  unfolding Buy.cancel_order free_funds data_deallocate_funds
  cancel_order-allocated c ne = ground (
    arith,
    get-remove_ne other c.self.buy_data.store.btc_funds_id c.purse.purse_data.store.allocated_funds
        ne,
  )

  on_request :
      (r : FatCrabMakerRequest) (c : World) (b : Buy.FatCrabMakerBuyActor)
      → c.self.inner ≡ buy_actor b
      → other ≢ b.buy_data.store.btc_funds_id
      → allocated other (final (handle_request env r c)).purse ≡ allocated other c.purse
  unfolding handle_request post_new_order get_order_details get_state get_peer_pubkey
      get_peer_btc_txid query_offers query_peer_msg shut_down register_notif_tx unregister_notif_tx
      Buy.trade_response Buy.check_btc_tx_confirmation Buy.trade_complete
  on_request (FatCrabMakerRequest.release_notify_peer t) c b e ne =
      ground (arith, release-purse env t c b e, release_notify_peer-allocated (buy_ctx b c) ne)
  on_request FatCrabMakerRequest.cancel_order c b e ne =
      ground (arith, cancel_order-allocated (buy_ctx b c) ne)
  on_request _ c b e ne = ground arith

  -- No event of a buy maker changes what is set aside under the id of other funds than its own.
  pub handle_event-Isolated :
      (e : MakerEvent) (c : World) (b : Buy.FatCrabMakerBuyActor)
      → c.self.inner ≡ buy_actor b
      → other ≢ b.buy_data.store.btc_funds_id
      → allocated other (final (handle_event env e c)).purse ≡ allocated other c.purse
  unfolding handle_event handle_notif handle_offer_notif handle_peer_notif Buy.handle_peer_notif
      Sell.handle_peer_notif
  handle_event-Isolated (MakerEvent.request r) c b e ne = on_request r c b e ne
  handle_event-Isolated (MakerEvent.notification (MakerNotif.offer o)) c b e ne = ground arith
  handle_event-Isolated (MakerEvent.notification (MakerNotif.peer o)) c b e ne = ground arith
  handle_event-Isolated (MakerEvent.notification (MakerNotif.failed x)) c b e ne = refl

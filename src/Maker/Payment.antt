-- ===== src/Maker/Payment.antt =====
-- What a maker pays: to whom, from which funds, and how much.
use fatcrab_trading.Base.{String, Option, ◌≡◌, ◌≢◌, refl, arith, ◌⊎◌, inl, inr}
use fatcrab_trading.Base.Dict.{Uuid}
use fatcrab_trading.Action.{Outcome, ret, raise, panic, final}
use fatcrab_trading.Common.{Address, Txid}
use fatcrab_trading.Maker.{
  World, buy_actor, sell_actor, post_new_order, get_order_details, get_state, get_peer_pubkey,
  get_peer_btc_txid, query_offers, query_peer_msg,
}
use fatcrab_trading.Maker.Buy
use fatcrab_trading.Maker.Sell
use fatcrab_trading.Maker.Release.{buy_ctx, BuyCtx, IsStored, release_notify_peer_cases}
use fatcrab_trading.Maker.Notifications.{
  register_notif_tx, unregister_notif_tx, handle_offer_notif, handle_peer_notif,
}
use fatcrab_trading.Maker.Run.{handle_request, handle_notif, handle_event, shut_down}
use fatcrab_trading.Maker.Types.{MakerEnv, FatCrabMakerRequest, MakerNotif, MakerEvent}
use fatcrab_trading.Purse.{Purse, free_funds, send_funds, get_tx_conf, data_deallocate_funds}
use mathlib.Core.Path.{subst⁻¹}
use fatcrab_trading.Purse.Spending.{SendOutcome, Spends, send_funds-SendOutcome}

-- Nothing was broadcast, or one transaction, which pays the funds of the trade to an address that
-- fulfils `To`.
abbrev pub PaysOnly : (Address → Type 0) → Uuid → Purse → Purse → Type 0
PaysOnly To id p p' = (p'.sent ≡ p.sent) ⊎ ((a : Address) × To a × Spends id a p p')

pub SendOutcome-PaysOnly :
    (To : Address → Type 0) (id : Uuid) (a : Address) (p : Purse) (o : Outcome Purse Txid)
    → To a
    → SendOutcome id a p o
    → PaysOnly To id p (final o)
SendOutcome-PaysOnly To id a p (ret t p') h s = inr (a, h, s)
SendOutcome-PaysOnly To id a p (raise e p') h s = inl (rw s refl)
SendOutcome-PaysOnly To id a p (panic p') h s = absurd s

module _ (env : MakerEnv) where
  pub pay_and_notify-purse :
      (a : Address) (c : BuyCtx)
      → (final (Buy.pay_and_notify env a c)).purse
        ≡ final (send_funds env.wallet c.self.buy_data.store.btc_funds_id a c.purse)
  unfolding Buy.pay_and_notify
  pay_and_notify-purse a c = ground arith

  release_notify_peer-PaysOnly :
      (c : BuyCtx)
      → PaysOnly
          (IsStored env c)
          c.self.buy_data.store.btc_funds_id
          c.purse
          (final (Buy.release_notify_peer env c)).purse
  release_notify_peer-PaysOnly c =
      let id = c.self.buy_data.store.btc_funds_id in
      let PaysFrom = PaysOnly (IsStored env c) id c.purse in
      release_notify_peer_cases (λ o. PaysFrom (final o).purse) env c (λ _. inl (ground arith))
        (inl refl)
        (λ a stored. subst⁻¹ PaysFrom (ground (arith, pay_and_notify-purse a c)) (
          SendOutcome-PaysOnly (IsStored env c) id a c.purse (send_funds env.wallet id a c.purse)
            stored (send_funds-SendOutcome env.wallet id c.purse a)))

  -- The other events broadcast nothing.
  handle_request-quiet :
      (r : FatCrabMakerRequest) (c : World)
      → ((t : Option String) → r ≢ FatCrabMakerRequest.release_notify_peer t)
      → (final (handle_request env r c)).purse.sent ≡ c.purse.sent
  unfolding handle_request post_new_order get_order_details get_state get_peer_pubkey
      get_peer_btc_txid query_offers query_peer_msg shut_down register_notif_tx unregister_notif_tx
      Buy.cancel_order Sell.cancel_order Buy.trade_response Sell.trade_response Sell.notify_peer
      Buy.check_btc_tx_confirmation Sell.check_btc_tx_confirmation Buy.trade_complete
      Sell.trade_complete free_funds get_tx_conf data_deallocate_funds
  handle_request-quiet (FatCrabMakerRequest.release_notify_peer t) c h = absurd (h t refl)
  handle_request-quiet _ c h = ground arith

  handle_notif-quiet :
      (n : MakerNotif) (c : World) → (final (handle_notif env n c)).purse.sent ≡ c.purse.sent
  unfolding handle_notif handle_offer_notif handle_peer_notif Buy.handle_peer_notif
      Sell.handle_peer_notif
  handle_notif-quiet (MakerNotif.offer o) c = ground arith
  handle_notif-quiet (MakerNotif.peer o) c = ground arith
  handle_notif-quiet (MakerNotif.failed e) c = refl

  pub release-purse :
      (t : Option String) (c : World) (b : Buy.FatCrabMakerBuyActor)
      → c.self.inner ≡ buy_actor b
      → (final (handle_request env (FatCrabMakerRequest.release_notify_peer t) c)).purse
        ≡ (final (Buy.release_notify_peer env (buy_ctx b c))).purse
  unfolding handle_request
  release-purse t c b e = ground arith

  -- Whatever happens to the maker of a buy order, one event broadcasts at most one transaction. It
  -- pays the whole of the funds set aside for this trade, and nothing else, to the address that the
  -- peer's message left in the store, read for the trade's network, and the funds are gone after it.
  pub handle_event-PaysOnly :
      (e : MakerEvent) (c : World) (b : Buy.FatCrabMakerBuyActor)
      → c.self.inner ≡ buy_actor b
      → PaysOnly
          (IsStored env (buy_ctx b c))
          b.buy_data.store.btc_funds_id
          c.purse
          (final (handle_event env e c)).purse
  unfolding handle_event
  handle_event-PaysOnly (MakerEvent.request (FatCrabMakerRequest.release_notify_peer t)) c b e =
      subst⁻¹ (PaysOnly (IsStored env (buy_ctx b c)) b.buy_data.store.btc_funds_id c.purse)
        (release-purse t c b e) (release_notify_peer-PaysOnly (buy_ctx b c))
  handle_event-PaysOnly (MakerEvent.notification n) c b e = inl (handle_notif-quiet n c)
  handle_event-PaysOnly (MakerEvent.request r) c b e = inl (handle_request-quiet r c (ground arith))

  -- No event of the maker of a sell order broadcasts from the purse.
  pub sell_event-PaysNothing :
      (e : MakerEvent) (c : World) (s : Sell.FatCrabMakerSellActor)
      → c.self.inner ≡ sell_actor s
      → (final (handle_event env e c)).purse.sent ≡ c.purse.sent
  unfolding handle_event handle_request Sell.notify_peer
  sell_event-PaysNothing (MakerEvent.request (FatCrabMakerRequest.release_notify_peer t)) c s e =
      ground arith
  sell_event-PaysNothing (MakerEvent.notification n) c s e = handle_notif-quiet n c
  sell_event-PaysNothing (MakerEvent.request r) c s e = handle_request-quiet r c (ground arith)

-- ===== src/Maker/Orders.antt =====
-- What a maker's cancelling, and an offer that comes too late, do on every way out.
use fatcrab_trading.Base.{ℕ, Bool, true, false, Option, none, some, ◌∷◌, ◌≡◌, ◌≢◌, arith}
use fatcrab_trading.Base.Dict.{get, remove}
use fatcrab_trading.Action.{ret, final, ok, err}
use fatcrab_trading.Error.{simple, cannot_cancel_order, n3xb, ExternalError}
use fatcrab_trading.N3xb.{OfferEnvelope}
use fatcrab_trading.Maker.{World}
use fatcrab_trading.Maker.Buy
use fatcrab_trading.Maker.Release.{BuyCtx}
use fatcrab_trading.Maker.Machine.{state_in}
use fatcrab_trading.Maker.Notifications.{state_rejection, handle_offer_notif}
use fatcrab_trading.Maker.Types.{
  MakerEffect, reply, reject_offer, MakerReply, MakerEnv, FatCrabMakerState, trade_cancelled,
}
use fatcrab_trading.Purse.{free_funds, data_deallocate_funds}

-- What `cancel_order` tells the outside, whose answer is the error `x` or none.
abbrev pub Cancels : MakerEnv → BuyCtx → Bool → Option ExternalError → BuyCtx → Type 0
Cancels env c false x c' =
    (c'.self ≡ c.self)
    × (c'.purse ≡ c.purse)
    × (c'.out
        ≡ reply (MakerReply.state (err (simple (cannot_cancel_order c.self.trade_uuid)))) ∷ c.out)
Cancels env c true (some x) c' =
    (c'.self ≡ c.self)
    × (c'.purse ≡ c.purse)
    × (c'.out ≡ reply (MakerReply.state (err (n3xb x))) ∷ MakerEffect.cancel_order ∷ c.out)
Cancels env c true none c' =
    (c'.self.buy_data.store.state ≡ trade_cancelled)
    × (c'.self.buy_data.is_queued ≡ true)
    × (c'.purse.purse_data.store.allocated_funds
        ≡ remove c.self.buy_data.store.btc_funds_id c.purse.purse_data.store.allocated_funds)
    × (c'.purse.sent ≡ c.purse.sent)
    × (c'.out ≡ reply (MakerReply.state (ok trade_cancelled)) ∷ MakerEffect.cancel_order ∷ c.out)

module _ (env : MakerEnv) where
  -- Cancelling a buy order whose funds are set aside, for a caller that waits for the reply: it
  -- is cancelled in the states before an offer is accepted, and only if the exchange agrees; then
  -- its funds are free again, nothing was spent, and the state is queued for saving. In another
  -- state, or where the exchange refuses, actor and purse stay, and the reply is the error.
  pub cancel_order-Cancels :
      (c : BuyCtx) (sats : ℕ)
      → env.rsp_open ≡ true
      → get c.self.buy_data.store.btc_funds_id c.purse.purse_data.store.allocated_funds ≡ some sats
      → Cancels env c
          (Buy.can_cancel c.self.buy_data.store.state)
          env.cancel_order
          (final (Buy.cancel_order env c))
  unfolding Buy.cancel_order free_funds data_deallocate_funds
  cancel_order-Cancels c sats answered h = ground arith

  -- An offer outside of `WaitingForOffers` and `ReceivedOffer` is rejected to its sender, once,
  -- if the exchange takes the rejection, and nothing else happens: the store, the purse and the
  -- application's channel see none of it.
  handle_offer_notif-Rejects :
      (o : OfferEnvelope) (c : World)
      → state_in c ≢ FatCrabMakerState.waiting_for_offers
      → state_in c ≢ FatCrabMakerState.received_offer
      → (env.reject_offer (state_rejection o (state_in c)) ≡ none)
      → handle_offer_notif env o c
        ≡ ret tt (record c { out = reject_offer (state_rejection o (state_in c)) ∷ c.out })
  unfolding handle_offer_notif
  handle_offer_notif-Rejects o c h k agreed = ground arith

-- ===== src/Maker/Machine.antt =====
-- The state machine of a maker's trade: what each event may do to the state, and that the code stays
-- within it.
use fatcrab_trading.Base.{Bool, true, false, List, [], ◌∷◌, ◌≡◌, refl, arith, ◌⊎◌, inl, inr}
use fatcrab_trading.Action.{final}
use fatcrab_trading.TradeRsp.{FatCrabTradeRspType}
use fatcrab_trading.Maker.{
  World, state_of, post_new_order, get_order_details, get_state, get_peer_pubkey, get_peer_btc_txid,
  query_offers, query_peer_msg,
}
use fatcrab_trading.Maker.Buy
use fatcrab_trading.Maker.Sell
use fatcrab_trading.Maker.Release.{inner_cases, buy_ctx, BuyCtx, release_notify_peer_cases}
use fatcrab_trading.Maker.Notifications.{
  register_notif_tx, unregister_notif_tx, handle_offer_notif, handle_peer_notif,
}
use fatcrab_trading.Maker.Run.{handle_request, handle_notif, handle_event, shut_down, run}
use fatcrab_trading.Maker.Types.{
  MakerEnv, FatCrabMakerRequest, MakerNotif, MakerEvent, FatCrabMakerState, new, waiting_for_offers,
  received_offer, accepted_offer, inbound_btc_notified, inbound_fc_notified, notified_outbound,
  trade_completed, trade_cancelled,
}

abbrev IsOpen : FatCrabMakerState → Type 0
IsOpen s = (s ≡ waiting_for_offers) ⊎ (s ≡ received_offer)

-- The move that an event may make from the state `s` to another one.
abbrev pub Moves : MakerEvent → FatCrabMakerState → FatCrabMakerState → Type 0
Moves (MakerEvent.request FatCrabMakerRequest.post_new_order) s s' = s' ≡ waiting_for_offers
Moves (MakerEvent.request FatCrabMakerRequest.cancel_order) s s' =
    ((s ≡ new) ⊎ IsOpen s) × (s' ≡ trade_cancelled)
Moves (MakerEvent.request (FatCrabMakerRequest.trade_response FatCrabTradeRspType.accept o)) s s' =
    s' ≡ accepted_offer
Moves (MakerEvent.request (FatCrabMakerRequest.release_notify_peer t)) s s' = s' ≡ notified_outbound
Moves (MakerEvent.request FatCrabMakerRequest.trade_complete) s s' = s' ≡ trade_completed
Moves (MakerEvent.notification (MakerNotif.offer o)) s s' = IsOpen s × (s' ≡ received_offer)
Moves (MakerEvent.notification (MakerNotif.peer o)) s s' =
    (s ≡ accepted_offer) × ((s' ≡ inbound_fc_notified) ⊎ (s' ≡ inbound_btc_notified))
Moves _ s s' = ⊥

abbrev pub Steps : MakerEvent → FatCrabMakerState → FatCrabMakerState → Type 0
Steps e s s' = (s' ≡ s) ⊎ Moves e s s'

abbrev pub state_in : World → FatCrabMakerState
state_in c = state_of c.self.inner

abbrev MayRelease : FatCrabMakerState → BuyCtx → Type 0
MayRelease s c =
    (c.self.buy_data.store.state ≡ s) ⊎ (c.self.buy_data.store.state ≡ notified_outbound)

module _ (env : MakerEnv) where
  pay_and_notify-state :
      (a : _) (c : BuyCtx)
      → MayRelease c.self.buy_data.store.state (final (Buy.pay_and_notify env a c))
  unfolding Buy.pay_and_notify
  pay_and_notify-state a c = ground arith

  release_notify_peer-state :
      (c : BuyCtx) → MayRelease c.self.buy_data.store.state (final (Buy.release_notify_peer env c))
  release_notify_peer-state c =
      release_notify_peer_cases (λ o. MayRelease c.self.buy_data.store.state (final o)) env c
        (λ _. ground arith) (inl refl) (λ a _. ground (arith, pay_and_notify-state a c))

  handle_request-Steps :
      (r : FatCrabMakerRequest) (c : World)
      → Steps (MakerEvent.request r) (state_in c) (state_in (final (handle_request env r c)))
  unfolding handle_request post_new_order get_order_details get_state get_peer_pubkey
      get_peer_btc_txid query_offers query_peer_msg shut_down register_notif_tx unregister_notif_tx
      Buy.cancel_order Sell.cancel_order Buy.trade_response Sell.trade_response Sell.notify_peer
      Buy.check_btc_tx_confirmation Sell.check_btc_tx_confirmation Buy.trade_complete
      Sell.trade_complete
  handle_request-Steps (FatCrabMakerRequest.release_notify_peer t) c =
      elim (inner_cases c.self.inner) [
        | inl (b, e) ↦ ground (arith, release_notify_peer-state (buy_ctx b c))
        | inr (s, e) ↦ ground arith
      ]
  handle_request-Steps (FatCrabMakerRequest.trade_response FatCrabTradeRspType.accept o) c =
      ground arith
  handle_request-Steps (FatCrabMakerRequest.trade_response FatCrabTradeRspType.reject o) c =
      ground arith
  handle_request-Steps _ c = ground arith

  -- The maker's handlers stay within the state machine: an event leaves the state alone or makes a
  -- move that the machine has for it, on every way out of the handler.
  pub handle_event-Steps :
      (e : MakerEvent) (c : World) → Steps e (state_in c) (state_in (final (handle_event env e c)))
  unfolding handle_event handle_notif handle_offer_notif handle_peer_notif Buy.handle_peer_notif
      Sell.handle_peer_notif
  handle_event-Steps (MakerEvent.request r) c = handle_request-Steps r c
  handle_event-Steps (MakerEvent.notification (MakerNotif.offer o)) c = ground arith
  handle_event-Steps (MakerEvent.notification (MakerNotif.peer o)) c = ground arith
  handle_event-Steps (MakerEvent.notification (MakerNotif.failed x)) c = inl refl

-- The application accepted an offer within the run.
abbrev pub accepts : List (MakerEnv × MakerEvent) → Bool
accepts [] = false
accepts
      ((env, MakerEvent.request (FatCrabMakerRequest.trade_response FatCrabTradeRspType.accept o))
        ∷ es) =
    true
accepts (_ ∷ es) = accepts es

abbrev pub IsInbound : FatCrabMakerState → Type 0
IsInbound s = (s ≡ inbound_fc_notified) ⊎ (s ≡ inbound_btc_notified)

abbrev IsAccepted : FatCrabMakerState → Type 0
IsAccepted s = (s ≡ accepted_offer) ⊎ IsInbound s

-- A step into the accepted part of the trade comes from within it, or the application accepted.
step-IsAccepted :
    (env : MakerEnv) (e : MakerEvent) (s s' : FatCrabMakerState)
    → Steps e s s'
    → IsAccepted s'
    → IsAccepted s ⊎ (accepts ((env, e) ∷ []) ≡ true)
step-IsAccepted env (MakerEvent.request FatCrabMakerRequest.post_new_order) s s' m h = ground arith
step-IsAccepted env
      (MakerEvent.request (FatCrabMakerRequest.trade_response FatCrabTradeRspType.accept o)) s s' m
      h =
    inr refl
step-IsAccepted env _ s s' m h = ground arith

accepts-cons :
    (x : MakerEnv × MakerEvent) (xs : List (MakerEnv × MakerEvent))
    → (accepts (x ∷ []) ≡ true) ⊎ (accepts xs ≡ true)
    → accepts (x ∷ xs) ≡ true
accepts-cons
      (env, MakerEvent.request (FatCrabMakerRequest.trade_response FatCrabTradeRspType.accept o)) xs
      h =
    refl
accepts-cons _ xs h = ground arith

-- The run ends after its first event, or goes on from there.
run-cons-cases {ℓ} :
    (Q : World → Type ℓ) (env : MakerEnv) (e : MakerEvent) (events : List (MakerEnv × MakerEvent))
    (c : World)
    → Q (final (handle_event env e c))
    → Q (final (run events (final (handle_event env e c))))
    → Q (final (run ((env, e) ∷ events) c))
unfolding run
run-cons-cases Q env e events c ends goes = ground (arith, ends, goes)

run-IsAccepted :
    (events : List (MakerEnv × MakerEvent)) (c : World)
    → IsAccepted (state_in (final (run events c)))
    → IsAccepted (state_in c) ⊎ (accepts events ≡ true)
unfolding run
run-IsAccepted [] c = inl
run-IsAccepted ((env, e) ∷ events) c =
    let next = final (handle_event env e c) in
    let Reached = (λ (w : World).
      IsAccepted (state_in w) → IsAccepted (state_in c) ⊎ (accepts ((env, e) ∷ events) ≡ true)) in
    run-cons-cases Reached env e events c (λ h. first (inl h))
      (λ h. first (run-IsAccepted events next h))
  where
    first :
        IsAccepted (state_in (final (handle_event env e c))) ⊎ (accepts events ≡ true)
        → IsAccepted (state_in c) ⊎ (accepts ((env, e) ∷ events) ≡ true)
    first (inr h) = inr (accepts-cons (env, e) events (inr h))
    first (inl h) =
        elim (step-IsAccepted env e (state_in c) (state_in (final (handle_event env e c)))
          (handle_event-Steps env e c) h) [
            | inl k ↦ inl k
            | inr k ↦ inr (accepts-cons (env, e) events (inl k))
          ]

-- The peer's message is taken in only after the application has accepted an offer: a run of a
-- maker from the state `New` that ends in `InboundFcNotified` or `InboundBtcNotified` holds such
-- a request.
pub run-IsInbound :
    (events : List (MakerEnv × MakerEvent)) (c : World)
    → state_in c ≡ new
    → IsInbound (state_in (final (run events c)))
    → accepts events ≡ true
run-IsInbound events c start h = elim (run-IsAccepted events c (inr h)) [
  | inl k ↦ ground arith
  | inr k ↦ k
]

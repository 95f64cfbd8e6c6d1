-- ===== src/Maker/Notifications.antt =====
-- src/maker/maker.rs: the maker's actor on what the n3xb maker reports, an offer or a message of the
-- peer, and the registration of the application's channel.
use fatcrab_trading.Base.{
  ⊤, Bool, true, false, Option, none, some, ◌||◌, is_some, if◌then◌else◌, not,
}
use fatcrab_trading.Action.{ok, err, Action, pure, ◌>>=◌, ◌>>◌, gets, unwrap, Fallible}
use fatcrab_trading.Error.{
  FatCrabError, simple, notif_tx_already_registered, notif_tx_not_registered,
}
use fatcrab_trading.Common.{FatCrabPeerEnvelope, PeerEnvelope, downcast_peer_message}
use fatcrab_trading.N3xb.{
  TradeResponse, rejected, OfferInvalidReason, cancelled, pending_another, other_specifics,
  OfferEnvelope,
}
use fatcrab_trading.Offer.{FatCrabOfferEnvelope, validate_n3xb_offer}
use fatcrab_trading.Actor.{Channel, update_self, send_to, call_n3xb, must}
use fatcrab_trading.Maker.Types.{
  FatCrabMakerState, received_offer, inbound_btc_notified, inbound_fc_notified, FatCrabMakerNotif,
  MakerReply, MakerEffect, MakerEnv,
}
use fatcrab_trading.Maker.Buy
use fatcrab_trading.Maker.Sell
use fatcrab_trading.Maker.{
  FatCrabMakerInnerActor, buy_actor, sell_actor, World, by_inner, reply, state, set_state,
}

set_inner_notif_tx : Option Channel → FatCrabMakerInnerActor → FatCrabMakerInnerActor
set_inner_notif_tx tx (buy_actor b) = buy_actor (record b { notif_tx = tx })
set_inner_notif_tx tx (sell_actor s) = sell_actor (record s { notif_tx = tx })

abbrev set_notif_tx : Option Channel → Action World ⊤
set_notif_tx tx =
    update_self (λ a. record a { notif_tx = tx; inner = set_inner_notif_tx tx a.inner })

abbrev pub ok_unless : Bool → FatCrabError → Fallible ⊤
ok_unless true e = err e
ok_unless false e = ok tt

-- The channel is set also where another one is registered, and the error tells of it.
unfoldable pub register_notif_tx : MakerEnv → Channel → Action World ⊤
unfolding set_inner_notif_tx
register_notif_tx env tx = do
  old ← gets (λ c. c.self.notif_tx)
  uuid ← gets (λ c. c.self.trade_uuid)
  set_notif_tx (some tx)
  reply env (MakerReply.done (ok_unless (is_some old) (simple (notif_tx_already_registered uuid))))

unfoldable pub unregister_notif_tx : MakerEnv → Action World ⊤
unfolding set_inner_notif_tx
unregister_notif_tx env = do
  old ← gets (λ c. c.self.notif_tx)
  uuid ← gets (λ c. c.self.trade_uuid)
  set_notif_tx none
  reply env
      (MakerReply.done (ok_unless (not (is_some old)) (simple (notif_tx_not_registered uuid))))

unfoldable pub is_waiting_for_offers : FatCrabMakerState → Bool
is_waiting_for_offers FatCrabMakerState.waiting_for_offers = true
is_waiting_for_offers _ = false

unfoldable pub is_received_offer : FatCrabMakerState → Bool
is_received_offer FatCrabMakerState.received_offer = true
is_received_offer _ = false

unfoldable pub is_accepted_offer : FatCrabMakerState → Bool
is_accepted_offer FatCrabMakerState.accepted_offer = true
is_accepted_offer _ = false

abbrev pub reject_reason : FatCrabMakerState → OfferInvalidReason
reject_reason FatCrabMakerState.trade_cancelled = cancelled
reject_reason _ = pending_another

abbrev pub state_rejection : OfferEnvelope → FatCrabMakerState → TradeResponse
state_rejection envelope current = record {
  offer_event_id = envelope.event_id;
  trade_response = rejected;
  reject_reason = some (reject_reason current);
  trade_engine_specifics = other_specifics;
}

-- Whether the offer came in a state that takes none, and was rejected.
unfoldable pub handle_offer_in_unexpected_state : MakerEnv → OfferEnvelope → Action World Bool
unfolding is_waiting_for_offers is_received_offer
handle_offer_in_unexpected_state env envelope = do
  current ← state
  if is_waiting_for_offers current || is_received_offer current then pure false else (do
    let rsp = state_rejection envelope current
    must (call_n3xb (MakerEffect.reject_offer rsp) (env.reject_offer rsp))
    pure true)

take_offer : MakerEnv → FatCrabOfferEnvelope → Option Channel → Action World ⊤
take_offer env offer none = pure tt
take_offer env offer (some tx) = do
  by_inner (do Buy.insert_offer_envelope offer; Buy.set_state received_offer)
      (do Sell.insert_offer_envelope offer; Sell.set_state received_offer)
  send_to env.notif_open (MakerEffect.notify tx (FatCrabMakerNotif.offer received_offer offer))

-- A valid offer is dropped where the application has no channel registered.
unfoldable pub handle_offer_notif : MakerEnv → OfferEnvelope → Action World ⊤
unfolding handle_offer_in_unexpected_state take_offer
handle_offer_notif env envelope = do
  unexpected ← handle_offer_in_unexpected_state env envelope
  if unexpected then pure tt else (elim (validate_n3xb_offer envelope.offer) [
    | err e ↦ pure tt
    | ok x ↦ do
      notif_tx ← gets (λ c. c.self.notif_tx)
      take_offer env (record { pubkey = envelope.pubkey; envelope = envelope }) notif_tx
  ])

-- The inner actor's part: whether the message was dropped, and the new state where it was not.
keep_buy : FatCrabPeerEnvelope → Bool → Buy.Buy (Option FatCrabMakerState)
keep_buy envelope true = pure none
keep_buy envelope false = do Buy.set_peer_envelope envelope; pure (some inbound_fc_notified)

keep_sell : FatCrabPeerEnvelope → Bool → Sell.Sell (Option FatCrabMakerState)
keep_sell envelope true = pure none
keep_sell envelope false = do Sell.set_peer_envelope envelope; pure (some inbound_btc_notified)

notify_peer_notif :
    MakerEnv → FatCrabPeerEnvelope → FatCrabMakerState → Option Channel → Action World ⊤
notify_peer_notif env envelope new_state none = pure tt
notify_peer_notif env envelope new_state (some tx) =
    send_to env.notif_open (MakerEffect.notify tx (FatCrabMakerNotif.peer new_state envelope))

enter_state : MakerEnv → FatCrabPeerEnvelope → Option FatCrabMakerState → Action World ⊤
enter_state env envelope none = pure tt
enter_state env envelope (some new_state) = do
  set_state new_state
  notif_tx ← gets (λ c. c.self.notif_tx)
  notify_peer_notif env envelope new_state notif_tx

accept_peer : MakerEnv → PeerEnvelope → Action World ⊤
unfolding enter_state notify_peer_notif keep_buy keep_sell
accept_peer env peer_envelope = do
  message ← unwrap (downcast_peer_message peer_envelope.message)
  let envelope : FatCrabPeerEnvelope = record { message = message; envelope = peer_envelope }
  entered ←
      by_inner (do dropped ← Buy.handle_peer_notif env message; keep_buy envelope dropped)
        (do dropped ← Sell.handle_peer_notif env message; keep_sell envelope dropped)
  enter_state env envelope entered

-- A message of the peer counts in the state `AcceptedOffer` only.
unfoldable pub handle_peer_notif : MakerEnv → PeerEnvelope → Action World ⊤
unfolding is_accepted_offer accept_peer
handle_peer_notif env peer_envelope = do
  current ← state
  if is_accepted_offer current then accept_peer env peer_envelope else pure tt

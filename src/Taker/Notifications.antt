-- ===== src/Taker/Notifications.antt =====
-- src/taker/taker.rs: the taker's actor on what the n3xb taker reports, an answer to the offer or a
-- message of the peer, and the registration of the application's channel.
use fatcrab_trading.Base.{⊤, Bool, true, false, Option, none, some, is_some, if◌then◌else◌, not}
use fatcrab_trading.Action.{ok, err, Action, pure, ◌>>=◌, ◌>>◌, gets, unwrap, Fallible}
use fatcrab_trading.Error.{
  FatCrabError, simple, notif_tx_already_registered, notif_tx_not_registered,
}
use fatcrab_trading.Common.{FatCrabPeerEnvelope, PeerEnvelope, downcast_peer_message}
use fatcrab_trading.N3xb.{TradeResponseEnvelope}
use fatcrab_trading.TradeRsp.{from_n3xb_trade_rsp}
use fatcrab_trading.Actor.{Channel, update_self, send_to}
use fatcrab_trading.Taker.Types.{
  FatCrabTakerState, inbound_btc_notified, inbound_fc_notified, FatCrabTakerNotif, TakerReply,
  TakerEffect, TakerEnv,
}
use fatcrab_trading.Taker.Buy
use fatcrab_trading.Taker.Sell
use fatcrab_trading.Taker.{
  FatCrabTakerInnerActor, buy_actor, sell_actor, World, by_inner, reply, state,
}

set_inner_notif_tx : Option Channel → FatCrabTakerInnerActor → FatCrabTakerInnerActor
set_inner_notif_tx tx (buy_actor b) = buy_actor (record b { notif_tx = tx })
set_inner_notif_tx tx (sell_actor s) = sell_actor (record s { notif_tx = tx })

abbrev set_notif_tx : Option Channel → Action World ⊤
set_notif_tx tx =
    update_self (λ a. record a { notif_tx = tx; inner = set_inner_notif_tx tx a.inner })

abbrev pub ok_unless : Bool → FatCrabError → Fallible ⊤
ok_unless true e = err e
ok_unless false e = ok tt

-- The channel is set also where another one is registered, and the error tells of it.
unfoldable pub register_notif_tx : TakerEnv → Channel → Action World ⊤
unfolding set_inner_notif_tx
register_notif_tx env tx = do
  old ← gets (λ c. c.self.notif_tx)
  uuid ← gets (λ c. c.self.trade_uuid)
  set_notif_tx (some tx)
  reply env (TakerReply.done (ok_unless (is_some old) (simple (notif_tx_already_registered uuid))))

unfoldable pub unregister_notif_tx : TakerEnv → Action World ⊤
unfolding set_inner_notif_tx
unregister_notif_tx env = do
  old ← gets (λ c. c.self.notif_tx)
  uuid ← gets (λ c. c.self.trade_uuid)
  set_notif_tx none
  reply env
      (TakerReply.done (ok_unless (not (is_some old)) (simple (notif_tx_not_registered uuid))))

unfoldable pub is_submitted_offer : FatCrabTakerState → Bool
is_submitted_offer FatCrabTakerState.submitted_offer = true
is_submitted_offer _ = false

unfoldable pub is_notified_outbound : FatCrabTakerState → Bool
is_notified_outbound FatCrabTakerState.notified_outbound = true
is_notified_outbound _ = false

answer_offer : TakerEnv → TradeResponseEnvelope → Action World ⊤
answer_offer env envelope = do
  trade_rsp ← from_n3xb_trade_rsp envelope.trade_rsp
  by_inner (Buy.handle_trade_rsp_notif env trade_rsp envelope)
      (Sell.handle_trade_rsp_notif env trade_rsp envelope)

-- An answer counts in the state `SubmittedOffer` only.
unfoldable pub handle_trade_rsp_notif : TakerEnv → TradeResponseEnvelope → Action World ⊤
unfolding is_submitted_offer answer_offer
handle_trade_rsp_notif env envelope = do
  current ← state
  if is_submitted_offer current then answer_offer env envelope else pure tt

notify_peer_notif :
    TakerEnv → FatCrabPeerEnvelope → FatCrabTakerState → Option Channel → Action World ⊤
notify_peer_notif env envelope current none = pure tt
notify_peer_notif env envelope current (some tx) =
    send_to env.notif_open (TakerEffect.notify tx (FatCrabTakerNotif.peer current envelope))

accept_peer : TakerEnv → PeerEnvelope → Action World ⊤
unfolding notify_peer_notif
accept_peer env peer_envelope = do
  message ← unwrap (downcast_peer_message peer_envelope.message)
  let envelope : FatCrabPeerEnvelope = record { message = message; envelope = peer_envelope }
  by_inner
      (do
        Buy.handle_peer_notif env message
        Buy.set_peer_envelope envelope
        Buy.set_state inbound_btc_notified)
      (do
        Sell.handle_peer_notif message
        Sell.set_peer_envelope envelope
        Sell.set_state inbound_fc_notified)
  current ← state
  notif_tx ← gets (λ c. c.self.notif_tx)
  notify_peer_notif env envelope current notif_tx

-- A message of the peer counts in the state `NotifiedOutbound` only.
unfoldable pub handle_peer_notif : TakerEnv → PeerEnvelope → Action World ⊤
unfolding is_notified_outbound accept_peer
handle_peer_notif env peer_envelope = do
  current ← state
  if is_notified_outbound current then accept_peer env peer_envelope else pure tt

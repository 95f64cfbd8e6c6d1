-- ===== src/Maker/Run.antt =====
-- src/maker/maker.rs: the loop of the maker's actor. Each event comes with the answers that it gets
-- from outside, and the order of the events is that in which `select!` takes them.
use fatcrab_trading.Base.{⊤, Bool, true, false, String, List, [], ◌∷◌, Option, if◌then◌else◌}
use fatcrab_trading.Action.{Action, pure, ◌>>=◌, ◌>>◌, unwrap, ok, err}
use fatcrab_trading.Actor.{call_n3xb, catch, emit}
use fatcrab_trading.Maker
use fatcrab_trading.Maker.Buy
use fatcrab_trading.Maker.Sell
use fatcrab_trading.Maker.Notifications
use fatcrab_trading.Maker.{World, by_inner, reply}
use fatcrab_trading.Maker.Types.{
  MakerEnv, MakerEffect, MakerReply, FatCrabMakerRequest, MakerNotif, MakerEvent, post_new_order,
  get_state, get_order_details, get_peer_pubkey, get_peer_btc_txid, query_offers, query_peer_msg,
  cancel_order, check_btc_tx_conf, trade_complete, unregister_notif_tx, shutdown, trade_response,
  release_notify_peer, register_notif_tx,
}

-- `data.terminate()` closes the persister of the inner actor (src/persist); the reply is the n3xb
-- maker's answer.
unfoldable pub shut_down : MakerEnv → Action World ⊤
shut_down env =
    catch (λ e. reply env (MakerReply.done (err e)))
      (do
        by_inner (emit MakerEffect.terminate) (emit MakerEffect.terminate)
        call_n3xb MakerEffect.shutdown env.shutdown
        reply env (MakerReply.done (ok tt)))

-- The sell maker `unwrap`s the transaction id that its accessor puts into the request.
notify_peer_of : MakerEnv → Option String → Sell.Sell ⊤
notify_peer_of env fatcrab_txid = do txid ← unwrap fatcrab_txid; Sell.notify_peer env txid

unfoldable pub handle_request : MakerEnv → FatCrabMakerRequest → Action World ⊤
unfolding notify_peer_of
handle_request env post_new_order = Maker.post_new_order env
handle_request env get_order_details = Maker.get_order_details env
handle_request env get_state = Maker.get_state env
handle_request env get_peer_pubkey = Maker.get_peer_pubkey env
handle_request env get_peer_btc_txid = Maker.get_peer_btc_txid env
handle_request env query_offers = Maker.query_offers env
handle_request env query_peer_msg = Maker.query_peer_msg env
handle_request env cancel_order = by_inner (Buy.cancel_order env) (Sell.cancel_order env)
handle_request env (trade_response rsp_type offer) =
    by_inner (Buy.trade_response env rsp_type offer) (Sell.trade_response env rsp_type offer)
handle_request env (release_notify_peer fatcrab_txid) =
    by_inner (Buy.release_notify_peer env) (notify_peer_of env fatcrab_txid)
handle_request env check_btc_tx_conf =
    by_inner (Buy.check_btc_tx_confirmation env) (Sell.check_btc_tx_confirmation env)
handle_request env trade_complete = by_inner (Buy.trade_complete env) (Sell.trade_complete env)
handle_request env shutdown = shut_down env
handle_request env (register_notif_tx tx) = Notifications.register_notif_tx env tx
handle_request env unregister_notif_tx = Notifications.unregister_notif_tx env

unfoldable pub handle_notif : MakerEnv → MakerNotif → Action World ⊤
handle_notif env (MakerNotif.offer envelope) = Notifications.handle_offer_notif env envelope
handle_notif env (MakerNotif.peer envelope) = Notifications.handle_peer_notif env envelope
handle_notif env (MakerNotif.failed e) = pure tt

unfoldable pub handle_event : MakerEnv → MakerEvent → Action World ⊤
unfolding handle_request handle_notif
handle_event env (MakerEvent.request r) = handle_request env r
handle_event env (MakerEvent.notification n) = handle_notif env n

abbrev is_shutdown : MakerEvent → Bool
is_shutdown (MakerEvent.request FatCrabMakerRequest.shutdown) = true
is_shutdown _ = false

-- The loop ends after a shutdown. The registration with the n3xb maker, `unwrap`ped before the
-- first round, is taken to have succeeded.
unfoldable pub run : List (MakerEnv × MakerEvent) → Action World ⊤
run [] = pure tt
run ((env, event) ∷ events) = do
  handle_event env event
  if is_shutdown event then pure tt else run events

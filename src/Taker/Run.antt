-- ===== src/Taker/Run.antt =====
-- src/taker/taker.rs: the loop of the taker's actor. Each event comes with the answers that it gets
-- from outside, and the order of the events is that in which `select!` takes them.
use fatcrab_trading.Base.{⊤, Bool, true, false, String, List, [], ◌∷◌, Option, if◌then◌else◌}
use fatcrab_trading.Action.{Action, pure, ◌>>=◌, ◌>>◌, unwrap, ok, err}
use fatcrab_trading.Actor.{call_n3xb, catch, emit}
use fatcrab_trading.Taker
use fatcrab_trading.Taker.Buy
use fatcrab_trading.Taker.Sell
use fatcrab_trading.Taker.Notifications
use fatcrab_trading.Taker.{World, by_inner, reply}
use fatcrab_trading.Taker.Types.{
  TakerEnv, TakerEffect, TakerReply, FatCrabTakerRequest, TakerNotif, TakerEvent, take_order,
  get_state, get_order_details, get_peer_btc_txid, query_trade_rsp, query_peer_msg,
  check_btc_tx_conf, trade_complete, unregister_notif_tx, shutdown, release_notify_peer,
  register_notif_tx,
}

-- `data.terminate()` closes the persister of the inner actor (src/persist); the reply is the n3xb
-- taker's answer.
unfoldable pub shut_down : TakerEnv → Action World ⊤
shut_down env =
    catch (λ e. reply env (TakerReply.done (err e)))
      (do
        by_inner (emit TakerEffect.terminate) (emit TakerEffect.terminate)
        call_n3xb TakerEffect.shutdown env.shutdown
        reply env (TakerReply.done (ok tt)))

-- The buy taker `unwrap`s the transaction id that its accessor puts into the request.
notify_peer_of : TakerEnv → Option String → Buy.Buy ⊤
notify_peer_of env txid = do text ← unwrap txid; Buy.notify_peer env text

unfoldable pub handle_request : TakerEnv → FatCrabTakerRequest → Action World ⊤
unfolding notify_peer_of
handle_request env take_order = Taker.take_order env
handle_request env get_order_details = Taker.get_order_details env
handle_request env get_state = Taker.get_state env
handle_request env get_peer_btc_txid = Taker.get_peer_btc_txid env
handle_request env query_trade_rsp = by_inner (Buy.query_trade_rsp env) (Sell.query_trade_rsp env)
handle_request env query_peer_msg = Taker.query_peer_msg env
handle_request env (release_notify_peer txid) =
    by_inner (notify_peer_of env txid) (Sell.release_notify_peer env)
handle_request env check_btc_tx_conf =
    by_inner (Buy.check_btc_tx_confirmation env) (Sell.check_btc_tx_confirmation env)
handle_request env trade_complete = by_inner (Buy.trade_complete env) (Sell.trade_complete env)
handle_request env shutdown = shut_down env
handle_request env (register_notif_tx tx) = Notifications.register_notif_tx env tx
handle_request env unregister_notif_tx = Notifications.unregister_notif_tx env

unfoldable pub handle_notif : TakerEnv → TakerNotif → Action World ⊤
handle_notif env (TakerNotif.trade_rsp envelope) = Notifications.handle_trade_rsp_notif env envelope
handle_notif env (TakerNotif.peer envelope) = Notifications.handle_peer_notif env envelope
handle_notif env (TakerNotif.failed e) = pure tt

unfoldable pub handle_event : TakerEnv → TakerEvent → Action World ⊤
unfolding handle_request handle_notif
handle_event env (TakerEvent.request r) = handle_request env r
handle_event env (TakerEvent.notification n) = handle_notif env n

abbrev is_shutdown : TakerEvent → Bool
is_shutdown (TakerEvent.request FatCrabTakerRequest.shutdown) = true
is_shutdown _ = false

-- The loop ends after a shutdown. The registration with the n3xb taker, `unwrap`ped before the
-- first round, is taken to have succeeded.
unfoldable pub run : List (TakerEnv × TakerEvent) → Action World ⊤
run [] = pure tt
run ((env, event) ∷ events) = do
  handle_event env event
  if is_shutdown event then pure tt else run events

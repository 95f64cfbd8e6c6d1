-- ===== src/Taker/Answers.antt =====
-- What the accessors of a taker get.
use fatcrab_trading.Base.{true, false, not, String, none, some, ◌≡◌, ◌⊎◌, arith}
use fatcrab_trading.Action.{Fallible, ok, err, Outcome, ret, raise, panic}
use fatcrab_trading.Error.{mpsc_send}
use fatcrab_trading.Taker.Types.{TakerEnv, TakerReply, FatCrabTakerRequest}
use fatcrab_trading.Taker.Access
use fatcrab_trading.Taker.Access.{TakerServer, ends}
use fatcrab_trading.Taker.Replying.{Tells, handle_request-Serves}
use fatcrab_trading.Access.{send}
use fatcrab_trading.Actor.{Channel}

-- What a call of an accessor comes to: with its value or its error, the reply tells the truth.
module _ {A : Type 0} (env : TakerEnv) where
  abbrev pub Answered :
      (Fallible A → TakerReply) → FatCrabTakerRequest → TakerServer → Outcome TakerServer A → Type 0
  Answered as_reply r s (ret a t) =
      (s.is_running ≡ true)
      × (t.is_running ≡ not (ends r))
      × Tells env s.world t.world r (as_reply (ok a))
  Answered as_reply r s (raise e t) =
      ((s.is_running ≡ true)
        × (t.is_running ≡ not (ends r))
        × Tells env s.world t.world r (as_reply (err e)))
      ⊎ ((s.is_running ≡ false) × (t ≡ s) × (e ≡ mpsc_send "channel closed"))
  Answered as_reply r s (panic t) = (s.is_running ≡ true) × (t.is_running ≡ false)

  -- The same for a reply that is no `Result`.
  abbrev pub Returned :
      (A → TakerReply) → FatCrabTakerRequest → TakerServer → Outcome TakerServer A → Type 0
  Returned as_reply r s (ret a t) =
      (s.is_running ≡ true) × (t.is_running ≡ true) × Tells env s.world t.world r (as_reply a)
  Returned as_reply r s (raise e t) =
      (s.is_running ≡ false) × (t ≡ s) × (e ≡ mpsc_send "channel closed")
  Returned as_reply r s (panic t) = ⊥

-- All methods of the accessor.
pub record AreAnswered (env : TakerEnv) (s : TakerServer) : Type 0 where
  pub notify_peer :
      (txid : String)
      → Answered env TakerReply.state
          (FatCrabTakerRequest.release_notify_peer (some txid))
          s
          (Access.notify_peer env txid s)
  pub query_trade_rsp :
      Answered env TakerReply.trade_rsp FatCrabTakerRequest.query_trade_rsp s
        (Access.query_trade_rsp env s)
  pub get_peer_btc_txid :
      Answered env TakerReply.peer_btc_txid FatCrabTakerRequest.get_peer_btc_txid s
        (Access.get_peer_btc_txid env s)
  pub check_btc_tx_confirmation :
      Answered env TakerReply.confirmations FatCrabTakerRequest.check_btc_tx_conf s
        (Access.check_btc_tx_confirmation env s)
  pub release_notify_peer :
      Answered env TakerReply.state
        (FatCrabTakerRequest.release_notify_peer none)
        s
        (Access.release_notify_peer env s)
  pub take_order :
      Answered env TakerReply.state FatCrabTakerRequest.take_order s (Access.take_order env s)
  pub get_order_details :
      Returned env TakerReply.order_details FatCrabTakerRequest.get_order_details s
        (Access.get_order_details env s)
  pub get_state :
      Answered env TakerReply.state FatCrabTakerRequest.get_state s (Access.get_state env s)
  pub query_peer_msg :
      Returned env TakerReply.peer_msg FatCrabTakerRequest.query_peer_msg s
        (Access.query_peer_msg env s)
  pub trade_complete :
      Answered env TakerReply.state FatCrabTakerRequest.trade_complete s
        (Access.trade_complete env s)
  pub shutdown : Answered env TakerReply.done FatCrabTakerRequest.shutdown s (Access.shutdown env s)
  pub register_notif_tx :
      (tx : Channel)
      → Answered env TakerReply.done
          (FatCrabTakerRequest.register_notif_tx tx)
          s
          (Access.register_notif_tx env tx s)
  pub unregister_notif_tx :
      Answered env TakerReply.done FatCrabTakerRequest.unregister_notif_tx s
        (Access.unregister_notif_tx env s)

-- What each call of a taker's accessor comes to, whatever the state of the trade and the answers from outside.
-- A query returns what the taker's data say, and changes none of them. A request that changes the trade's
-- state returns the state that the taker is in after it, the one that this request aims at, or an error.
-- The confirmations are those that the purse has for the stored transaction id. Registering for
-- notifications leaves the new channel registered, also where the call returns an error because there was
-- one. A call panics exactly if it ends the task by a panic, a shutdown ends the task, and after
-- its end every call is an error and changes nothing.
pub taker_accessor-AreAnswered : (env : TakerEnv) (s : TakerServer) → AreAnswered env s
unfolding send Access.ask Access.notify_peer Access.query_trade_rsp Access.get_peer_btc_txid
    Access.check_btc_tx_confirmation Access.release_notify_peer Access.take_order
    Access.get_order_details Access.get_state Access.query_peer_msg Access.trade_complete
    Access.shutdown Access.register_notif_tx Access.unregister_notif_tx
taker_accessor-AreAnswered env s = record {
  notify_peer = λ txid. ground (
    arith,
    handle_request-Serves env (FatCrabTakerRequest.release_notify_peer (some txid)) s.world,
  );
  query_trade_rsp =
      ground (arith, handle_request-Serves env (FatCrabTakerRequest.query_trade_rsp) s.world);
  get_peer_btc_txid =
      ground (arith, handle_request-Serves env (FatCrabTakerRequest.get_peer_btc_txid) s.world);
  check_btc_tx_confirmation =
      ground (arith, handle_request-Serves env (FatCrabTakerRequest.check_btc_tx_conf) s.world);
  release_notify_peer =
      ground
        (arith, handle_request-Serves env (FatCrabTakerRequest.release_notify_peer none) s.world);
  take_order = ground (arith, handle_request-Serves env (FatCrabTakerRequest.take_order) s.world);
  get_order_details =
      ground (arith, handle_request-Serves env (FatCrabTakerRequest.get_order_details) s.world);
  get_state = ground (arith, handle_request-Serves env (FatCrabTakerRequest.get_state) s.world);
  query_peer_msg =
      ground (arith, handle_request-Serves env (FatCrabTakerRequest.query_peer_msg) s.world);
  trade_complete =
      ground (arith, handle_request-Serves env (FatCrabTakerRequest.trade_complete) s.world);
  shutdown = ground (arith, handle_request-Serves env (FatCrabTakerRequest.shutdown) s.world);
  register_notif_tx = λ tx.
      ground (arith, handle_request-Serves env (FatCrabTakerRequest.register_notif_tx tx) s.world);
  unregister_notif_tx =
      ground (arith, handle_request-Serves env (FatCrabTakerRequest.unregister_notif_tx) s.world);
}

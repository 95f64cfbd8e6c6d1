-- ===== src/Maker/Answers.antt =====
-- What the accessors of a maker get.
use fatcrab_trading.Base.{true, false, not, String, none, some, ◌≡◌, ◌⊎◌, arith}
use fatcrab_trading.Action.{Fallible, ok, err, Outcome, ret, raise, panic}
use fatcrab_trading.Error.{mpsc_send}
use fatcrab_trading.Maker.Types.{MakerEnv, MakerReply, FatCrabMakerRequest}
use fatcrab_trading.Maker.Access
use fatcrab_trading.Maker.Access.{MakerServer, ends}
use fatcrab_trading.Maker.Replying.{Tells, handle_request-Serves}
use fatcrab_trading.Access.{send}
use fatcrab_trading.Actor.{Channel}
use fatcrab_trading.Offer.{FatCrabOfferEnvelope}
use fatcrab_trading.TradeRsp.{FatCrabTradeRspType}

-- What a call of an accessor comes to: with its value or its error, the reply tells the truth.
module _ {A : Type 0} (env : MakerEnv) where
  abbrev pub Answered :
      (Fallible A → MakerReply) → FatCrabMakerRequest → MakerServer → Outcome MakerServer A → Type 0
  Answered as_reply r s (ret a t) =
      (s.is_running ≡ true)
      × (t.is_running ≡ not (ends r))
      × Tells env s.world t.world r (as_reply (ok a))
  Answered as_reply r s (raise e t) =
      ((s.is_running ≡ true)
        × (t.is_running ≡ not (ends r))
        × Tells env s.world t.world r (as_reply (err e)))
      ⊎ ((s.is_running ≡ false) × (t ≡ s) × (e ≡ mpsc_send "channel closed"))
  Answered as_reply r s (panic t) = (s.is_running ≡ true) × (t.is_running ≡ false)

  -- The same for a reply that is no `Result`.
  abbrev pub Returned :
      (A → MakerReply) → FatCrabMakerRequest → MakerServer → Outcome MakerServer A → Type 0
  Returned as_reply r s (ret a t) =
      (s.is_running ≡ true) × (t.is_running ≡ true) × Tells env s.world t.world r (as_reply a)
  Returned as_reply r s (raise e t) =
      (s.is_running ≡ false) × (t ≡ s) × (e ≡ mpsc_send "channel closed")
  Returned as_reply r s (panic t) = ⊥

-- All methods of the accessor.
pub record AreAnswered (env : MakerEnv) (s : MakerServer) : Type 0 where
  pub release_notify_peer :
      Answered env MakerReply.state
        (FatCrabMakerRequest.release_notify_peer none)
        s
        (Access.release_notify_peer env s)
  pub get_peer_btc_txid :
      Answered env MakerReply.peer_btc_txid FatCrabMakerRequest.get_peer_btc_txid s
        (Access.get_peer_btc_txid env s)
  pub check_btc_tx_confirmation :
      Answered env MakerReply.confirmations FatCrabMakerRequest.check_btc_tx_conf s
        (Access.check_btc_tx_confirmation env s)
  pub notify_peer :
      (fatcrab_txid : String)
      → Answered env MakerReply.state
          (FatCrabMakerRequest.release_notify_peer (some fatcrab_txid))
          s
          (Access.notify_peer env fatcrab_txid s)
  pub post_new_order :
      Answered env MakerReply.state FatCrabMakerRequest.post_new_order s
        (Access.post_new_order env s)
  pub get_order_details :
      Returned env MakerReply.order_details FatCrabMakerRequest.get_order_details s
        (Access.get_order_details env s)
  pub get_state :
      Answered env MakerReply.state FatCrabMakerRequest.get_state s (Access.get_state env s)
  pub get_peer_pubkey :
      Returned env MakerReply.peer_pubkey FatCrabMakerRequest.get_peer_pubkey s
        (Access.get_peer_pubkey env s)
  pub query_offers :
      Returned env MakerReply.offers FatCrabMakerRequest.query_offers s (Access.query_offers env s)
  pub query_peer_msg :
      Returned env MakerReply.peer_msg FatCrabMakerRequest.query_peer_msg s
        (Access.query_peer_msg env s)
  pub cancel_order :
      Answered env MakerReply.state FatCrabMakerRequest.cancel_order s (Access.cancel_order env s)
  pub trade_response :
      (t : FatCrabTradeRspType) (o : FatCrabOfferEnvelope)
      → Answered env MakerReply.state
          (FatCrabMakerRequest.trade_response t o)
          s
          (Access.trade_response env t o s)
  pub trade_complete :
      Answered env MakerReply.state FatCrabMakerRequest.trade_complete s
        (Access.trade_complete env s)
  pub shutdown : Answered env MakerReply.done FatCrabMakerRequest.shutdown s (Access.shutdown env s)
  pub register_notif_tx :
      (tx : Channel)
      → Answered env MakerReply.done
          (FatCrabMakerRequest.register_notif_tx tx)
          s
          (Access.register_notif_tx env tx s)
  pub unregister_notif_tx :
      Answered env MakerReply.done FatCrabMakerRequest.unregister_notif_tx s
        (Access.unregister_notif_tx env s)

-- What each call of a maker's accessor comes to, whatever the state of the trade and the answers from outside.
-- A query returns what the maker's data say, and changes none of them. A request that changes the trade's
-- state returns the state that the maker is in after it, the one that this request aims at, or an error.
-- The confirmations are those that the purse has for the stored transaction id. Registering for
-- notifications leaves the new channel registered, also where the call returns an error because there was
-- one. A call panics exactly if it ends the task by a panic, a shutdown ends the task, and after
-- its end every call is an error and changes nothing.
pub accessor-AreAnswered : (env : MakerEnv) (s : MakerServer) → AreAnswered env s
unfolding send Access.ask Access.release_notify_peer Access.get_peer_btc_txid
    Access.check_btc_tx_confirmation Access.notify_peer Access.post_new_order
    Access.get_order_details Access.get_state Access.get_peer_pubkey Access.query_offers
    Access.query_peer_msg Access.cancel_order Access.trade_response Access.trade_complete
    Access.shutdown Access.register_notif_tx Access.unregister_notif_tx
accessor-AreAnswered env s = record {
  release_notify_peer =
      ground
        (arith, handle_request-Serves env (FatCrabMakerRequest.release_notify_peer none) s.world);
  get_peer_btc_txid =
      ground (arith, handle_request-Serves env (FatCrabMakerRequest.get_peer_btc_txid) s.world);
  check_btc_tx_confirmation =
      ground (arith, handle_request-Serves env (FatCrabMakerRequest.check_btc_tx_conf) s.world);
  notify_peer = λ fatcrab_txid. ground (
    arith,
    handle_request-Serves env (FatCrabMakerRequest.release_notify_peer (some fatcrab_txid)) s.world,
  );
  post_new_order =
      ground (arith, handle_request-Serves env (FatCrabMakerRequest.post_new_order) s.world);
  get_order_details =
      ground (arith, handle_request-Serves env (FatCrabMakerRequest.get_order_details) s.world);
  get_state = ground (arith, handle_request-Serves env (FatCrabMakerRequest.get_state) s.world);
  get_peer_pubkey =
      ground (arith, handle_request-Serves env (FatCrabMakerRequest.get_peer_pubkey) s.world);
  query_offers =
      ground (arith, handle_request-Serves env (FatCrabMakerRequest.query_offers) s.world);
  query_peer_msg =
      ground (arith, handle_request-Serves env (FatCrabMakerRequest.query_peer_msg) s.world);
  cancel_order =
      ground (arith, handle_request-Serves env (FatCrabMakerRequest.cancel_order) s.world);
  trade_response = λ t o.
      ground (arith, handle_request-Serves env (FatCrabMakerRequest.trade_response t o) s.world);
  trade_complete =
      ground (arith, handle_request-Serves env (FatCrabMakerRequest.trade_complete) s.world);
  shutdown = ground (arith, handle_request-Serves env (FatCrabMakerRequest.shutdown) s.world);
  register_notif_tx = λ tx.
      ground (arith, handle_request-Serves env (FatCrabMakerRequest.register_notif_tx tx) s.world);
  unregister_notif_tx =
      ground (arith, handle_request-Serves env (FatCrabMakerRequest.unregister_notif_tx) s.world);
}

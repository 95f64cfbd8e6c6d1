-- ===== src/Taker/Replying.antt =====
-- What the taker replies to each request.
use fatcrab_trading.Base.{
  ℕ, ⊤, Bool, true, false, not, is_some, String, Option, none, some, [], ◌≡◌, arith,
}
use fatcrab_trading.Action.{Fallible, ok, err, Outcome, ret, raise, panic}
use fatcrab_trading.Error.{
  simple, no_peer_btc_txid, buyer_has_no_peer_btc_txid, btc_txid_not_received,
  seller_keeps_no_trade_rsp, notif_tx_already_registered, notif_tx_not_registered,
}
use fatcrab_trading.Common.{FatCrabPeerEnvelope}
use fatcrab_trading.Order.{FatCrabOrderEnvelope}
use fatcrab_trading.Purse.{Purse, get_tx_conf}
use fatcrab_trading.TradeRsp.{FatCrabTradeRspEnvelope}
use fatcrab_trading.Taker.{
  FatCrabTakerInnerActor, buy_actor, sell_actor, state_of, World, take_order, get_order_details,
  get_state, get_peer_btc_txid, query_peer_msg,
}
use fatcrab_trading.Taker.Buy
use fatcrab_trading.Taker.Sell
use fatcrab_trading.Taker.Notifications.{register_notif_tx, unregister_notif_tx, ok_unless}
use fatcrab_trading.Taker.Run.{handle_request, shut_down}
use fatcrab_trading.Taker.Types.{TakerEnv, TakerReply, FatCrabTakerRequest, FatCrabTakerState}
use fatcrab_trading.Taker.Access.{reply_in, waiting}

-- What the queries read.
abbrev order_envelope_of : FatCrabTakerInnerActor → FatCrabOrderEnvelope
order_envelope_of (buy_actor b) = b.buy_data.store.order_envelope
order_envelope_of (sell_actor s) = s.sell_data.store.order_envelope

abbrev peer_msg_of : FatCrabTakerInnerActor → Option FatCrabPeerEnvelope
peer_msg_of (buy_actor b) = b.buy_data.store.peer_envelope
peer_msg_of (sell_actor s) = s.sell_data.store.peer_envelope

abbrev txid_of : FatCrabTakerInnerActor → Fallible (Option String)
txid_of (buy_actor b) = ok b.buy_data.store.peer_btc_txid
txid_of (sell_actor s) = err (simple no_peer_btc_txid)

abbrev trade_rsp_of : FatCrabTakerInnerActor → Fallible (Option FatCrabTradeRspEnvelope)
trade_rsp_of (buy_actor b) = ok b.buy_data.store.trade_rsp_envelope
trade_rsp_of (sell_actor s) = err (simple (seller_keeps_no_trade_rsp s.trade_uuid))

abbrev IsAnswer : Outcome Purse ℕ → Fallible ℕ → Type 0
IsAnswer (ret n p) r = r ≡ ok n
IsAnswer (raise e p) r = r ≡ err e
IsAnswer (panic p) r = ⊥

-- The purse's answer for the stored transaction id.
abbrev Confirms : TakerEnv → Purse → FatCrabTakerInnerActor → Fallible ℕ → Type 0
Confirms env p (buy_actor b) r = elim b.buy_data.store.peer_btc_txid [
  | none ↦ r ≡ err (simple (btc_txid_not_received b.trade_uuid))
  | some txid ↦ IsAnswer (get_tx_conf env.wallet txid p) r
]
Confirms env p (sell_actor s) r = r ≡ err (simple (buyer_has_no_peer_btc_txid s.trade_uuid))

-- A value is the state that the taker is in now.
abbrev IsNow : FatCrabTakerState → World → Fallible FatCrabTakerState → Type 0
IsNow aim c (ok s) = (s ≡ aim) × (state_of c.self.inner ≡ aim)
IsNow aim c (err e) = ⊤

-- What a reply to a request tells of the taker as it was before and as it is after.
abbrev pub Tells : TakerEnv → World → World → FatCrabTakerRequest → TakerReply → Type 0
Tells env c d FatCrabTakerRequest.get_order_details (TakerReply.order_details x) =
    (x ≡ order_envelope_of c.self.inner) × (d.self ≡ c.self)
Tells env c d FatCrabTakerRequest.get_peer_btc_txid (TakerReply.peer_btc_txid x) =
    (x ≡ txid_of c.self.inner) × (d.self ≡ c.self)
Tells env c d FatCrabTakerRequest.query_trade_rsp (TakerReply.trade_rsp x) =
    (x ≡ trade_rsp_of c.self.inner) × (d.self ≡ c.self)
Tells env c d FatCrabTakerRequest.query_peer_msg (TakerReply.peer_msg x) =
    (x ≡ peer_msg_of c.self.inner) × (d.self ≡ c.self)
Tells env c d FatCrabTakerRequest.check_btc_tx_conf (TakerReply.confirmations x) =
    Confirms env c.purse c.self.inner x × (d.self ≡ c.self)
Tells env c d FatCrabTakerRequest.get_state (TakerReply.state x) =
    (x ≡ ok (state_of c.self.inner)) × (d.self ≡ c.self)
Tells env c d FatCrabTakerRequest.take_order (TakerReply.state x) =
    IsNow FatCrabTakerState.submitted_offer d x
Tells env c d (FatCrabTakerRequest.release_notify_peer t) (TakerReply.state x) =
    IsNow FatCrabTakerState.notified_outbound d x
Tells env c d FatCrabTakerRequest.trade_complete (TakerReply.state x) =
    IsNow FatCrabTakerState.trade_completed d x
Tells env c d FatCrabTakerRequest.shutdown (TakerReply.done x) = d.self ≡ c.self
Tells env c d (FatCrabTakerRequest.register_notif_tx tx) (TakerReply.done x) =
    (d.self.notif_tx ≡ some tx)
    × (x
        ≡ ok_unless (is_some c.self.notif_tx)
            (simple (notif_tx_already_registered c.self.trade_uuid)))
Tells env c d FatCrabTakerRequest.unregister_notif_tx (TakerReply.done x) =
    (d.self.notif_tx ≡ none)
    × (x
        ≡ ok_unless (not (is_some c.self.notif_tx))
            (simple (notif_tx_not_registered c.self.trade_uuid)))
Tells _ _ _ _ _ = ⊥

-- There is one reply, the latest entry that is one; a handler that panics has sent none.
abbrev pub Replies : TakerEnv → World → World → FatCrabTakerRequest → Option TakerReply → Type 0
Replies env c d r none = ⊥
Replies env c d r (some reply) = Tells env c d r reply

-- Requests that touch neither the n3xb trade nor the wallet, and the shutdown: they do not panic.
abbrev reads : FatCrabTakerRequest → Bool
reads FatCrabTakerRequest.get_order_details = true
reads FatCrabTakerRequest.get_state = true
reads FatCrabTakerRequest.get_peer_btc_txid = true
reads FatCrabTakerRequest.query_trade_rsp = true
reads FatCrabTakerRequest.query_peer_msg = true
reads FatCrabTakerRequest.shutdown = true
reads _ = false

abbrev pub Serves : TakerEnv → FatCrabTakerRequest → World → Outcome World ⊤ → Type 0
Serves env r c (ret x d) = Replies env c d r (reply_in d.out)
Serves env r c (raise e d) = ⊥
Serves env r c (panic d) = (reply_in d.out ≡ none) × (reads r ≡ false)

module _ (env : TakerEnv) where
  pub handle_request-Serves :
      (r : FatCrabTakerRequest) (c : World)
      → Serves env r c (handle_request (waiting env) r (record c { out = [] }))
  unfolding handle_request take_order get_order_details get_state get_peer_btc_txid query_peer_msg
      shut_down register_notif_tx unregister_notif_tx Buy.query_trade_rsp Sell.query_trade_rsp
      Buy.notify_peer Sell.release_notify_peer Sell.release_btc_notify_peer Sell.pay_and_notify
      Buy.check_btc_tx_confirmation Sell.check_btc_tx_confirmation Buy.trade_complete
      Sell.trade_complete
  handle_request-Serves FatCrabTakerRequest.check_btc_tx_conf c = ground arith
  handle_request-Serves _ c = ground arith

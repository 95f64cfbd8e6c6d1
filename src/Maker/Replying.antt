-- ===== src/Maker/Replying.antt =====
-- What the maker replies to each request.
use fatcrab_trading.Base.{
  ℕ, ⊤, Bool, true, false, not, is_some, String, Option, none, some, List, [], ◌≡◌, arith,
}
use fatcrab_trading.Action.{Fallible, ok, err, Outcome, ret, raise, panic}
use fatcrab_trading.Error.{
  simple, no_peer_btc_txid, buyer_has_no_peer_btc_txid, btc_txid_not_received,
  notif_tx_already_registered, notif_tx_not_registered,
}
use fatcrab_trading.Common.{FatCrabPeerEnvelope}
use fatcrab_trading.Order.{FatCrabOrder}
use fatcrab_trading.Purse.{Purse, get_tx_conf}
use fatcrab_trading.Maker.{
  FatCrabMakerInnerActor, buy_actor, sell_actor, state_of, World, post_new_order, get_order_details,
  get_state, get_peer_pubkey, get_peer_btc_txid, query_offers, query_peer_msg,
}
use fatcrab_trading.Maker.Buy
use fatcrab_trading.Maker.Sell
use fatcrab_trading.Maker.Notifications.{register_notif_tx, unregister_notif_tx, ok_unless}
use fatcrab_trading.Maker.Run.{handle_request, shut_down}
use fatcrab_trading.Maker.Types.{MakerEnv, MakerReply, FatCrabMakerRequest, FatCrabMakerState}
use fatcrab_trading.Maker.Access.{reply_in, waiting}
use fatcrab_trading.Offer.{FatCrabOfferEnvelope}
use fatcrab_trading.TradeRsp.{FatCrabTradeRspType}

-- What the queries read.
abbrev order_of : FatCrabMakerInnerActor → FatCrabOrder
order_of (buy_actor b) = b.buy_data.store.order
order_of (sell_actor s) = s.sell_data.store.order

abbrev pubkey_of : FatCrabMakerInnerActor → Option String
pubkey_of (buy_actor b) = b.buy_data.store.peer_pubkey
pubkey_of (sell_actor s) = s.sell_data.store.peer_pubkey

abbrev offers_of : FatCrabMakerInnerActor → List FatCrabOfferEnvelope
offers_of (buy_actor b) = b.buy_data.store.offer_envelopes
offers_of (sell_actor s) = s.sell_data.store.offer_envelopes

abbrev peer_msg_of : FatCrabMakerInnerActor → Option FatCrabPeerEnvelope
peer_msg_of (buy_actor b) = b.buy_data.store.peer_envelope
peer_msg_of (sell_actor s) = s.sell_data.store.peer_envelope

abbrev txid_of : FatCrabMakerInnerActor → Fallible (Option String)
txid_of (buy_actor b) = err (simple no_peer_btc_txid)
txid_of (sell_actor s) = ok s.sell_data.store.peer_btc_txid

abbrev IsAnswer : Outcome Purse ℕ → Fallible ℕ → Type 0
IsAnswer (ret n p) r = r ≡ ok n
IsAnswer (raise e p) r = r ≡ err e
IsAnswer (panic p) r = ⊥

-- The purse's answer for the stored transaction id.
abbrev Confirms : MakerEnv → Purse → FatCrabMakerInnerActor → Fallible ℕ → Type 0
Confirms env p (buy_actor b) r = r ≡ err (simple (buyer_has_no_peer_btc_txid b.trade_uuid))
Confirms env p (sell_actor s) r = elim s.sell_data.store.peer_btc_txid [
  | none ↦ r ≡ err (simple (btc_txid_not_received s.trade_uuid))
  | some txid ↦ IsAnswer (get_tx_conf env.wallet txid p) r
]

-- A value is the state that the maker is in now.
abbrev IsNow : FatCrabMakerState → World → Fallible FatCrabMakerState → Type 0
IsNow aim c (ok s) = (s ≡ aim) × (state_of c.self.inner ≡ aim)
IsNow aim c (err e) = ⊤

-- What a reply to a request tells of the maker as it was before and as it is after.
abbrev pub Tells : MakerEnv → World → World → FatCrabMakerRequest → MakerReply → Type 0
Tells env c d FatCrabMakerRequest.get_order_details (MakerReply.order_details x) =
    (x ≡ order_of c.self.inner) × (d.self ≡ c.self)
Tells env c d FatCrabMakerRequest.get_peer_pubkey (MakerReply.peer_pubkey x) =
    (x ≡ pubkey_of c.self.inner) × (d.self ≡ c.self)
Tells env c d FatCrabMakerRequest.get_peer_btc_txid (MakerReply.peer_btc_txid x) =
    (x ≡ txid_of c.self.inner) × (d.self ≡ c.self)
Tells env c d FatCrabMakerRequest.query_offers (MakerReply.offers x) =
    (x ≡ offers_of c.self.inner) × (d.self ≡ c.self)
Tells env c d FatCrabMakerRequest.query_peer_msg (MakerReply.peer_msg x) =
    (x ≡ peer_msg_of c.self.inner) × (d.self ≡ c.self)
Tells env c d FatCrabMakerRequest.check_btc_tx_conf (MakerReply.confirmations x) =
    Confirms env c.purse c.self.inner x × (d.self ≡ c.self)
Tells env c d FatCrabMakerRequest.get_state (MakerReply.state x) =
    (x ≡ ok (state_of c.self.inner)) × (d.self ≡ c.self)
Tells env c d FatCrabMakerRequest.post_new_order (MakerReply.state x) =
    IsNow FatCrabMakerState.waiting_for_offers d x
Tells env c d FatCrabMakerRequest.cancel_order (MakerReply.state x) =
    IsNow FatCrabMakerState.trade_cancelled d x
Tells env c d (FatCrabMakerRequest.trade_response FatCrabTradeRspType.accept o)
      (MakerReply.state x) =
    IsNow FatCrabMakerState.accepted_offer d x
Tells env c d (FatCrabMakerRequest.trade_response FatCrabTradeRspType.reject o)
      (MakerReply.state x) =
    (x ≡ ok (state_of c.self.inner)) × (d.self ≡ c.self)
Tells env c d (FatCrabMakerRequest.release_notify_peer t) (MakerReply.state x) =
    IsNow FatCrabMakerState.notified_outbound d x
Tells env c d FatCrabMakerRequest.trade_complete (MakerReply.state x) =
    IsNow FatCrabMakerState.trade_completed d x
Tells env c d FatCrabMakerRequest.shutdown (MakerReply.done x) = d.self ≡ c.self
Tells env c d (FatCrabMakerRequest.register_notif_tx tx) (MakerReply.done x) =
    (d.self.notif_tx ≡ some tx)
    × (x
        ≡ ok_unless (is_some c.self.notif_tx)
            (simple (notif_tx_already_registered c.self.trade_uuid)))
Tells env c d FatCrabMakerRequest.unregister_notif_tx (MakerReply.done x) =
    (d.self.notif_tx ≡ none)
    × (x
        ≡ ok_unless (not (is_some c.self.notif_tx))
            (simple (notif_tx_not_registered c.self.trade_uuid)))
Tells _ _ _ _ _ = ⊥

-- There is one reply, the latest entry that is one; a handler that panics has sent none.
abbrev pub Replies : MakerEnv → World → World → FatCrabMakerRequest → Option MakerReply → Type 0
Replies env c d r none = ⊥
Replies env c d r (some reply) = Tells env c d r reply

-- Requests that touch neither the n3xb trade nor the wallet, and the shutdown: they do not panic.
abbrev reads : FatCrabMakerRequest → Bool
reads FatCrabMakerRequest.get_order_details = true
reads FatCrabMakerRequest.get_state = true
reads FatCrabMakerRequest.get_peer_pubkey = true
reads FatCrabMakerRequest.get_peer_btc_txid = true
reads FatCrabMakerRequest.query_offers = true
reads FatCrabMakerRequest.query_peer_msg = true
reads FatCrabMakerRequest.shutdown = true
reads _ = false

abbrev pub Serves : MakerEnv → FatCrabMakerRequest → World → Outcome World ⊤ → Type 0
Serves env r c (ret x d) = Replies env c d r (reply_in d.out)
Serves env r c (raise e d) = ⊥
Serves env r c (panic d) = (reply_in d.out ≡ none) × (reads r ≡ false)

module _ (env : MakerEnv) where
  pub handle_request-Serves :
      (r : FatCrabMakerRequest) (c : World)
      → Serves env r c (handle_request (waiting env) r (record c { out = [] }))
  unfolding handle_request post_new_order get_order_details get_state get_peer_pubkey
      get_peer_btc_txid query_offers query_peer_msg shut_down register_notif_tx unregister_notif_tx
      Buy.cancel_order Sell.cancel_order Buy.trade_response Sell.trade_response
      Buy.release_notify_peer Buy.pay_and_notify Sell.notify_peer Buy.check_btc_tx_confirmation
      Sell.check_btc_tx_confirmation Buy.trade_complete Sell.trade_complete
  handle_request-Serves FatCrabMakerRequest.check_btc_tx_conf c = ground arith
  handle_request-Serves (FatCrabMakerRequest.trade_response FatCrabTradeRspType.accept o) c =
      ground arith
  handle_request-Serves (FatCrabMakerRequest.trade_response FatCrabTradeRspType.reject o) c =
      ground arith
  handle_request-Serves _ c = ground arith

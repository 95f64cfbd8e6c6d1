-- ===== src/Maker/Access.antt =====
-- src/maker/maker.rs: `FatCrabMakerAccess`, by which an application calls a maker.
use fatcrab_trading.Base.{ℕ, ⊤, Bool, true, false, String, Option, none, some, List, [], ◌∷◌}
use fatcrab_trading.Action.{Action, pure, fail, throw, propagate, ◌>>=◌, unwrap}
use fatcrab_trading.Error.{oneshot_recv}
use fatcrab_trading.Common.{FatCrabPeerEnvelope}
use fatcrab_trading.Order.{FatCrabOrder}
use fatcrab_trading.Offer.{FatCrabOfferEnvelope}
use fatcrab_trading.TradeRsp.{FatCrabTradeRspType}
use fatcrab_trading.Access.{Server, send}
use fatcrab_trading.Actor.{Channel}
use fatcrab_trading.Maker.{World}
use fatcrab_trading.Maker.Run.{handle_request}
use fatcrab_trading.Maker.Types.{
  MakerEnv, MakerEffect, MakerReply, FatCrabMakerRequest, FatCrabMakerState,
}

abbrev pub MakerServer : Type 0
MakerServer = Server World

-- The latest reply of a log.
abbrev pub reply_in : List MakerEffect → Option MakerReply
reply_in [] = none
reply_in (MakerEffect.reply r ∷ out) = some r
reply_in (_ ∷ out) = reply_in out

-- The accessor waits for the reply, so that its receiver is there.
abbrev pub waiting : MakerEnv → MakerEnv
waiting env = record env { rsp_open = true }

abbrev pub ends : FatCrabMakerRequest → Bool
ends FatCrabMakerRequest.shutdown = true
ends _ = false

abbrev pub sent : MakerEnv → FatCrabMakerRequest → Action MakerServer (List MakerEffect)
sent env r = send (ends r) (handle_request (waiting env) r)

-- `rsp_rx.await.unwrap()`: it panics where the task ended without a reply.
unfoldable pub ask : MakerEnv → FatCrabMakerRequest → Action MakerServer MakerReply
unfolding send
ask env r = do out ← sent env r; unwrap (reply_in out)

-- A reply of another type than the channel's cannot be: it would be a panic here.
abbrev pub as_state : MakerReply → Action MakerServer FatCrabMakerState
as_state (MakerReply.state r) = propagate r
as_state _ = fail

abbrev pub as_done : MakerReply → Action MakerServer ⊤
as_done (MakerReply.done r) = propagate r
as_done _ = fail

abbrev as_order : MakerReply → Action MakerServer FatCrabOrder
as_order (MakerReply.order_details order) = pure order
as_order _ = fail

abbrev as_pubkey : MakerReply → Action MakerServer (Option String)
as_pubkey (MakerReply.peer_pubkey pubkey) = pure pubkey
as_pubkey _ = fail

abbrev as_txid : MakerReply → Action MakerServer (Option String)
as_txid (MakerReply.peer_btc_txid r) = propagate r
as_txid _ = fail

abbrev as_offers : MakerReply → Action MakerServer (List FatCrabOfferEnvelope)
as_offers (MakerReply.offers offers) = pure offers
as_offers _ = fail

abbrev as_peer_msg : MakerReply → Action MakerServer (Option FatCrabPeerEnvelope)
as_peer_msg (MakerReply.peer_msg msg) = pure msg
as_peer_msg _ = fail

abbrev as_confirmations : MakerReply → Action MakerServer ℕ
as_confirmations (MakerReply.confirmations r) = propagate r
as_confirmations _ = fail

module _ (env : MakerEnv) where
  -- Of `FatCrabMakerAccess<MakerBuy>`.
  unfoldable pub release_notify_peer : Action MakerServer FatCrabMakerState
  unfolding ask
  release_notify_peer = ask env (FatCrabMakerRequest.release_notify_peer none) >>= as_state

  -- Of `FatCrabMakerAccess<MakerSell>`.
  unfoldable pub get_peer_btc_txid : Action MakerServer (Option String)
  unfolding ask
  get_peer_btc_txid = ask env FatCrabMakerRequest.get_peer_btc_txid >>= as_txid

  unfoldable pub check_btc_tx_confirmation : Action MakerServer ℕ
  unfolding ask
  check_btc_tx_confirmation = ask env FatCrabMakerRequest.check_btc_tx_conf >>= as_confirmations

  unfoldable pub notify_peer : String → Action MakerServer FatCrabMakerState
  unfolding ask
  notify_peer fatcrab_txid =
      ask env (FatCrabMakerRequest.release_notify_peer (some fatcrab_txid)) >>= as_state

  -- Of both.
  unfoldable pub post_new_order : Action MakerServer FatCrabMakerState
  unfolding ask
  post_new_order = ask env FatCrabMakerRequest.post_new_order >>= as_state

  unfoldable pub get_order_details : Action MakerServer FatCrabOrder
  unfolding ask
  get_order_details = ask env FatCrabMakerRequest.get_order_details >>= as_order

  unfoldable pub get_state : Action MakerServer FatCrabMakerState
  unfolding ask
  get_state = ask env FatCrabMakerRequest.get_state >>= as_state

  unfoldable pub get_peer_pubkey : Action MakerServer (Option String)
  unfolding ask
  get_peer_pubkey = ask env FatCrabMakerRequest.get_peer_pubkey >>= as_pubkey

  unfoldable pub query_offers : Action MakerServer (List FatCrabOfferEnvelope)
  unfolding ask
  query_offers = ask env FatCrabMakerRequest.query_offers >>= as_offers

  unfoldable pub query_peer_msg : Action MakerServer (Option FatCrabPeerEnvelope)
  unfolding ask
  query_peer_msg = ask env FatCrabMakerRequest.query_peer_msg >>= as_peer_msg

  unfoldable pub cancel_order : Action MakerServer FatCrabMakerState
  unfolding ask
  cancel_order = ask env FatCrabMakerRequest.cancel_order >>= as_state

  unfoldable pub trade_response :
      FatCrabTradeRspType → FatCrabOfferEnvelope → Action MakerServer FatCrabMakerState
  unfolding ask
  trade_response trade_rsp_type offer_envelope =
      ask env (FatCrabMakerRequest.trade_response trade_rsp_type offer_envelope) >>= as_state

  unfoldable pub trade_complete : Action MakerServer FatCrabMakerState
  unfolding ask
  trade_complete = ask env FatCrabMakerRequest.trade_complete >>= as_state

  -- `rsp_rx.await?`: here a missing reply is an error.
  unfoldable pub shutdown : Action MakerServer ⊤
  unfolding send
  shutdown = do
    out ← sent env FatCrabMakerRequest.shutdown
    elim (reply_in out) [ none ↦ throw (oneshot_recv "channel closed") | some r ↦ as_done r ]

  unfoldable pub register_notif_tx : Channel → Action MakerServer ⊤
  unfolding ask
  register_notif_tx tx = ask env (FatCrabMakerRequest.register_notif_tx tx) >>= as_done

  unfoldable pub unregister_notif_tx : Action MakerServer ⊤
  unfolding ask
  unregister_notif_tx = ask env FatCrabMakerRequest.unregister_notif_tx >>= as_done

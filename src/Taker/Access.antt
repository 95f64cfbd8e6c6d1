-- ===== src/Taker/Access.antt =====
-- src/taker/taker.rs: `FatCrabTakerAccess`, by which an application calls a taker.
use fatcrab_trading.Base.{ℕ, ⊤, Bool, true, false, String, Option, none, some, List, [], ◌∷◌}
use fatcrab_trading.Action.{Action, pure, fail, throw, propagate, ◌>>=◌, unwrap}
use fatcrab_trading.Error.{oneshot_recv}
use fatcrab_trading.Common.{FatCrabPeerEnvelope}
use fatcrab_trading.Order.{FatCrabOrderEnvelope}
use fatcrab_trading.TradeRsp.{FatCrabTradeRspEnvelope}
use fatcrab_trading.Access.{Server, send}
use fatcrab_trading.Actor.{Channel}
use fatcrab_trading.Taker.{World}
use fatcrab_trading.Taker.Run.{handle_request}
use fatcrab_trading.Taker.Types.{
  TakerEnv, TakerEffect, TakerReply, FatCrabTakerRequest, FatCrabTakerState,
}

abbrev pub TakerServer : Type 0
TakerServer = Server World

-- The latest reply of a log.
abbrev pub reply_in : List TakerEffect → Option TakerReply
reply_in [] = none
reply_in (TakerEffect.reply r ∷ out) = some r
reply_in (_ ∷ out) = reply_in out

-- The accessor waits for the reply, so that its receiver is there.
abbrev pub waiting : TakerEnv → TakerEnv
waiting env = record env { rsp_open = true }

abbrev pub ends : FatCrabTakerRequest → Bool
ends FatCrabTakerRequest.shutdown = true
ends _ = false

abbrev pub sent : TakerEnv → FatCrabTakerRequest → Action TakerServer (List TakerEffect)
sent env r = send (ends r) (handle_request (waiting env) r)

-- `rsp_rx.await.unwrap()`: it panics where the task ended without a reply.
unfoldable pub ask : TakerEnv → FatCrabTakerRequest → Action TakerServer TakerReply
unfolding send
ask env r = do out ← sent env r; unwrap (reply_in out)

-- A reply of another type than the channel's cannot be: it would be a panic here.
abbrev pub as_state : TakerReply → Action TakerServer FatCrabTakerState
as_state (TakerReply.state r) = propagate r
as_state _ = fail

abbrev pub as_done : TakerReply → Action TakerServer ⊤
as_done (TakerReply.done r) = propagate r
as_done _ = fail

abbrev as_txid : TakerReply → Action TakerServer (Option String)
as_txid (TakerReply.peer_btc_txid r) = propagate r
as_txid _ = fail

abbrev as_order : TakerReply → Action TakerServer FatCrabOrderEnvelope
as_order (TakerReply.order_details order) = pure order
as_order _ = fail

abbrev as_trade_rsp : TakerReply → Action TakerServer (Option FatCrabTradeRspEnvelope)
as_trade_rsp (TakerReply.trade_rsp r) = propagate r
as_trade_rsp _ = fail

abbrev as_peer_msg : TakerReply → Action TakerServer (Option FatCrabPeerEnvelope)
as_peer_msg (TakerReply.peer_msg msg) = pure msg
as_peer_msg _ = fail

abbrev as_confirmations : TakerReply → Action TakerServer ℕ
as_confirmations (TakerReply.confirmations r) = propagate r
as_confirmations _ = fail

module _ (env : TakerEnv) where
  -- Of `FatCrabTakerAccess<TakerBuy>`.
  unfoldable pub notify_peer : String → Action TakerServer FatCrabTakerState
  unfolding ask
  notify_peer txid = ask env (FatCrabTakerRequest.release_notify_peer (some txid)) >>= as_state

  unfoldable pub query_trade_rsp : Action TakerServer (Option FatCrabTradeRspEnvelope)
  unfolding ask
  query_trade_rsp = ask env FatCrabTakerRequest.query_trade_rsp >>= as_trade_rsp

  unfoldable pub get_peer_btc_txid : Action TakerServer (Option String)
  unfolding ask
  get_peer_btc_txid = ask env FatCrabTakerRequest.get_peer_btc_txid >>= as_txid

  unfoldable pub check_btc_tx_confirmation : Action TakerServer ℕ
  unfolding ask
  check_btc_tx_confirmation = ask env FatCrabTakerRequest.check_btc_tx_conf >>= as_confirmations

  -- Of `FatCrabTakerAccess<TakerSell>`.
  unfoldable pub release_notify_peer : Action TakerServer FatCrabTakerState
  unfolding ask
  release_notify_peer = ask env (FatCrabTakerRequest.release_notify_peer none) >>= as_state

  -- Of both.
  unfoldable pub take_order : Action TakerServer FatCrabTakerState
  unfolding ask
  take_order = ask env FatCrabTakerRequest.take_order >>= as_state

  unfoldable pub get_order_details : Action TakerServer FatCrabOrderEnvelope
  unfolding ask
  get_order_details = ask env FatCrabTakerRequest.get_order_details >>= as_order

  unfoldable pub get_state : Action TakerServer FatCrabTakerState
  unfolding ask
  get_state = ask env FatCrabTakerRequest.get_state >>= as_state

  unfoldable pub query_peer_msg : Action TakerServer (Option FatCrabPeerEnvelope)
  unfolding ask
  query_peer_msg = ask env FatCrabTakerRequest.query_peer_msg >>= as_peer_msg

  unfoldable pub trade_complete : Action TakerServer FatCrabTakerState
  unfolding ask
  trade_complete = ask env FatCrabTakerRequest.trade_complete >>= as_state

  -- `rsp_rx.await?`: here a missing reply is an error.
  unfoldable pub shutdown : Action TakerServer ⊤
  unfolding send
  shutdown = do
    out ← sent env FatCrabTakerRequest.shutdown
    elim (reply_in out) [ none ↦ throw (oneshot_recv "channel closed") | some r ↦ as_done r ]

  unfoldable pub register_notif_tx : Channel → Action TakerServer ⊤
  unfolding ask
  register_notif_tx tx = ask env (FatCrabTakerRequest.register_notif_tx tx) >>= as_done

  unfoldable pub unregister_notif_tx : Action TakerServer ⊤
  unfolding ask
  unregister_notif_tx = ask env FatCrabTakerRequest.unregister_notif_tx >>= as_done

-- ===== src/Taker/Replies.antt =====
-- Every request of a taker is answered once.
use fatcrab_trading.Base.{ℕ, suc, ⊤, List, [], ◌∷◌, ◌≡◌, refl, arith}
use fatcrab_trading.Action.{Outcome, ret, raise, panic, final}
use fatcrab_trading.Taker.{
  World, take_order, get_order_details, get_state, get_peer_btc_txid, query_peer_msg,
}
use fatcrab_trading.Taker.Buy
use fatcrab_trading.Taker.Sell
use fatcrab_trading.Taker.Release.{SellCtx, release_btc_notify_peer_cases}
use fatcrab_trading.Taker.Notifications.{register_notif_tx, unregister_notif_tx}
use fatcrab_trading.Taker.Run.{handle_request, shut_down}
use fatcrab_trading.Taker.Types.{TakerEffect, reply, TakerEnv, FatCrabTakerRequest}

abbrev pub replies : List TakerEffect → ℕ
replies [] = 0
replies (reply r ∷ out) = suc (replies out)
replies (_ ∷ out) = replies out

-- From a log with `n` replies.
abbrev pub AnswersOnce : ℕ → Outcome World ⊤ → Type 0
AnswersOnce n (ret x c) = replies c.out ≡ suc n
AnswersOnce n (raise e c) = ⊥
AnswersOnce n (panic c) = ⊤

abbrev IsQuiet : ℕ → Outcome SellCtx ⊤ → Type 0
IsQuiet n o = replies (final o).out ≡ n

module _ (env : TakerEnv) where
  pay_and_notify-IsQuiet :
      (a : _) (c : SellCtx) → IsQuiet (replies c.out) (Sell.pay_and_notify env a c)
  unfolding Sell.pay_and_notify
  pay_and_notify-IsQuiet a c = ground arith

  release_btc_notify_peer-IsQuiet :
      (c : SellCtx) → IsQuiet (replies c.out) (Sell.release_btc_notify_peer env c)
  release_btc_notify_peer-IsQuiet c =
      release_btc_notify_peer_cases (IsQuiet (replies c.out)) env c (λ _. refl) refl
        (λ a _. pay_and_notify-IsQuiet a c)

  -- Every request of a taker, in every state, is answered by exactly one reply, unless its handler
  -- panics: no error leaves a handler without an answer, and none is answered twice.
  pub taker_handle_request-AnswersOnce :
      (r : FatCrabTakerRequest) (c : World) → AnswersOnce (replies c.out) (handle_request env r c)
  unfolding handle_request take_order get_order_details get_state get_peer_btc_txid query_peer_msg
      shut_down register_notif_tx unregister_notif_tx Buy.query_trade_rsp Sell.query_trade_rsp
      Buy.notify_peer Sell.release_notify_peer Buy.check_btc_tx_confirmation
      Sell.check_btc_tx_confirmation Buy.trade_complete Sell.trade_complete
  taker_handle_request-AnswersOnce (FatCrabTakerRequest.release_notify_peer t) c =
      grind (arith, release_btc_notify_peer-IsQuiet)
  taker_handle_request-AnswersOnce _ c = ground arith

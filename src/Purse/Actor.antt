-- ===== src/Purse/Actor.antt =====
-- src/purse/purse.rs: the actor's loop. It serves the requests of its channel in order, until a
-- shutdown or until the channel closes.
use fatcrab_trading.Base.{ℕ, ⊤, Bool, true, false, String, List, [], ◌∷◌, if◌then◌else◌}
use fatcrab_trading.Base.Dict.{Uuid}
use fatcrab_trading.Action.{Action, Fallible, pure, fail, ◌>>=◌, attempt}
use fatcrab_trading.Common.{Address, Txid, Balances}
use fatcrab_trading.Purse
use fatcrab_trading.Purse.{Purse, Bdk}

pub data PurseRequest : Type 0 where
  get_mnemonic get_rx_address get_balances get_height sync_blockchain shutdown : PurseRequest
  allocate_funds : ℕ → PurseRequest
  free_funds : Uuid → PurseRequest
  send_funds : Uuid → Address → PurseRequest
  get_tx_conf : Txid → PurseRequest

-- The content of the `oneshot` that each request carries.
pub data PurseReply : Type 0 where
  text : Fallible String → PurseReply
  balances : Fallible Balances → PurseReply
  number : Fallible ℕ → PurseReply
  done : Fallible ⊤ → PurseReply

-- `rsp_tx.send(..).unwrap()`, on every path of a request: it panics where the caller is gone.
reply_with :
    {A : Type 0} → Bdk → (Fallible A → PurseReply) → Action Purse A → Action Purse PurseReply
reply_with w f m = do r ← attempt m; if w.rsp_open then pure (f r) else fail

-- `shutdown` also terminates the persister, which is no part of this state.
unfoldable pub handle : Bdk → PurseRequest → Action Purse PurseReply
unfolding reply_with
handle w get_mnemonic = reply_with w text (Purse.get_mnemonic w)
handle w get_rx_address = reply_with w text (Purse.get_rx_address w)
handle w get_balances = reply_with w balances (Purse.get_balances w)
handle w (allocate_funds sats) = reply_with w number (Purse.allocate_funds w sats)
handle w (free_funds funds_id) = reply_with w done (Purse.free_funds funds_id)
handle w (send_funds funds_id address) = reply_with w text (Purse.send_funds w funds_id address)
handle w get_height = reply_with w number (Purse.get_height w)
handle w (get_tx_conf txid) = reply_with w number (Purse.get_tx_conf w txid)
handle w sync_blockchain = reply_with w done (Purse.sync_blockchain w)
handle w shutdown = reply_with w done (pure tt)

abbrev is_shutdown : PurseRequest → Bool
is_shutdown shutdown = true
is_shutdown _ = false

-- The replies, in order. Each request comes with the answers that it gets from outside.
unfoldable pub run : List (Bdk × PurseRequest) → Action Purse (List PurseReply)
run [] = pure []
run ((w, request) ∷ requests) = do
  reply ← handle w request
  replies ← (if is_shutdown request then pure [] else run requests)
  pure (reply ∷ replies)

-- ===== src/Purse/Access.antt =====
-- src/purse/purse.rs: `PurseAccess`, by which the trades and the trader call the purse.
use fatcrab_trading.Base.{ℕ, ⊤, Bool, true, false, not, String}
use fatcrab_trading.Base.Dict.{Uuid}
use fatcrab_trading.Action.{Action, Outcome, ret, raise, panic, fail, propagate, ◌>>=◌}
use fatcrab_trading.Common.{Address, Txid, Balances}
use fatcrab_trading.Purse.{Purse, Bdk}
use fatcrab_trading.Purse.Actor.{PurseRequest, PurseReply, text, balances, number, done, handle}

-- `is_running` is false once the actor's task has ended.
pub record PurseServer : Type 0 where
  pub purse : Purse
  pub is_running : Bool

abbrev pub serves : Bool → Purse → PurseServer
serves is_running p = record { purse = p; is_running = is_running }

abbrev pub ends : PurseRequest → Bool
ends PurseRequest.shutdown = true
ends _ = false

-- A handler that panics ends the task, and the caller panics on the reply that does not come.
abbrev replied : Bool → Outcome Purse PurseReply → Outcome PurseServer PurseReply
replied is_running (ret reply p) = ret reply (serves is_running p)
replied is_running (raise e p) = raise e (serves is_running p)
replied is_running (panic p) = panic (serves false p)

-- `send` and the reply are both `unwrap`ped, and the accessor waits for the reply.
unfoldable pub ask : Bdk → PurseRequest → Action PurseServer PurseReply
ask w request s = elim s.is_running [
  | true ↦ replied (not (ends request)) (handle (record w { rsp_open = true }) request s.purse)
  | false ↦ panic s
]

-- A reply of another type than the channel's cannot be: it would be a panic here.
abbrev as_text : PurseReply → Action PurseServer String
as_text (text r) = propagate r
as_text _ = fail

abbrev as_balances : PurseReply → Action PurseServer Balances
as_balances (balances r) = propagate r
as_balances _ = fail

abbrev as_number : PurseReply → Action PurseServer ℕ
as_number (number r) = propagate r
as_number _ = fail

abbrev as_done : PurseReply → Action PurseServer ⊤
as_done (done r) = propagate r
as_done _ = fail

module _ (w : Bdk) where
  unfoldable pub get_mnemonic : Action PurseServer String
  unfolding ask
  get_mnemonic = ask w PurseRequest.get_mnemonic >>= as_text

  unfoldable pub get_rx_address : Action PurseServer Address
  unfolding ask
  get_rx_address = ask w PurseRequest.get_rx_address >>= as_text

  unfoldable pub get_balances : Action PurseServer Balances
  unfolding ask
  get_balances = ask w PurseRequest.get_balances >>= as_balances

  unfoldable pub allocate_funds : ℕ → Action PurseServer Uuid
  unfolding ask
  allocate_funds sats = ask w (PurseRequest.allocate_funds sats) >>= as_number

  unfoldable pub free_funds : Uuid → Action PurseServer ⊤
  unfolding ask
  free_funds funds_id = ask w (PurseRequest.free_funds funds_id) >>= as_done

  unfoldable pub send_funds : Uuid → Address → Action PurseServer Txid
  unfolding ask
  send_funds funds_id address = ask w (PurseRequest.send_funds funds_id address) >>= as_text

  unfoldable pub get_height : Action PurseServer ℕ
  unfolding ask
  get_height = ask w PurseRequest.get_height >>= as_number

  unfoldable pub get_tx_conf : Txid → Action PurseServer ℕ
  unfolding ask
  get_tx_conf txid = ask w (PurseRequest.get_tx_conf txid) >>= as_number

  unfoldable pub sync_blockchain : Action PurseServer ⊤
  unfolding ask
  sync_blockchain = ask w PurseRequest.sync_blockchain >>= as_done

  unfoldable pub shutdown : Action PurseServer ⊤
  unfolding ask
  shutdown = ask w PurseRequest.shutdown >>= as_done

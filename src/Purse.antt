-- ===== src/Purse.antt =====
-- src/purse/data.rs and src/purse/purse.rs: the wallet's actor and the funds that it sets aside for
-- trades. Each request is a method here; its reply is the value that the method returns, and the
-- `Err` that it sends and returns on is an early return. That the reply is `unwrap`ped, so that the actor
-- panics after the method where the caller has gone, is in `handle` (Purse/Actor).
mod Store
mod Wallet
pub mod Total
pub mod Iteration
pub mod Alike
pub mod AnyOrder
pub mod Solvency
pub mod Spending
pub mod Sending
pub mod Gone
pub mod Actor
pub mod Construction
pub mod Startup
pub mod Access
pub mod Invariant
pub mod Kept
pub mod Saving
pub mod Confirmations
mod Tests
unfoldable pub use Store.*
unfoldable pub use Wallet.*
use fatcrab_trading.Base.{
  ℕ, ◌+◌, ◌-◌, ⊤, Bool, true, false, String, Option, none, some, List, [], ◌∷◌, ltb, is_some, not,
}
use fatcrab_trading.Base.Dict.{Uuid, get, insert, remove}
use fatcrab_trading.Action.{
  Result, ok, err, Outcome, ret, raise, panic, Action, pure, ◌>>=◌, ◌>>◌, gets, modify, fail,
  unwrap, throw, throw_if, or_throw, or_convert, no_error, unwrap_ok, add_u64, sub_u64, add_u32,
}
use fatcrab_trading.Error.{
  ExternalError, FatCrabError, tx_not_found, tx_unconfirmed, simple, bdk, bdk_bip39,
  insufficient_funds, allocated_funds_not_found, conf_height_above_height,
}
use fatcrab_trading.Common.{
  Network, regtest, is_regtest, Address, Txid, WalletBalance, Balances, balances_from,
}

unfoldable pub get_mnemonic : Bdk → Action Purse String
get_mnemonic w = or_convert w.mnemonic bdk_bip39

unfoldable pub get_rx_address : Bdk → Action Purse Address
get_rx_address w = or_convert w.get_address bdk

unfoldable pub allocatable_balance : Bdk → Action Purse ℕ
unfolding total_funds_allocated
allocatable_balance w = do
  balance ← unwrap_ok w.get_balance
  spendable ← unwrap (add_u64 w.overflow_checks balance.confirmed balance.trusted_pending)
  allocated ← total_funds_allocated w.overflow_checks
  unwrap (sub_u64 w.overflow_checks spendable allocated)

unfoldable pub get_balances : Bdk → Action Purse Balances
unfolding total_funds_allocated
get_balances w = do
  balance ← or_convert w.get_balance bdk
  allocated ← total_funds_allocated w.overflow_checks
  pure (balances_from balance allocated)

-- Uuid::new_v4() is `w.new_uuid`.
unfoldable pub allocate_funds : Bdk → ℕ → Action Purse Uuid
unfolding allocatable_balance data_allocate_funds
allocate_funds w sats = do
  allocatable ← allocatable_balance w
  throw_if (ltb allocatable sats) (simple insufficient_funds)
  height ← gets (λ p. p.purse_data.store.height)
  data_allocate_funds w.new_uuid sats (some height)
  pure w.new_uuid

unfoldable pub free_funds : Uuid → Action Purse ⊤
unfolding data_deallocate_funds
free_funds funds_id = do
  height ← gets (λ p. p.purse_data.store.height)
  sats ← data_deallocate_funds funds_id (some height)
  throw_if (not (is_some sats)) (simple (allocated_funds_not_found funds_id))

-- The fee: none is estimated on regtest.
unfoldable pub set_fee : Bdk → TxRequest → Network → Action Purse TxRequest
set_fee w tx network = elim (is_regtest network) [
  | true ↦ pure tx
  | false ↦ do
    fee_rate ← or_convert (w.estimate_fee 5) bdk
    pure (record tx { fee_rate = some fee_rate; rbf = true })
]

-- `send_funds` from `finish` on: build, sign, broadcast, and drop the allocation.
unfoldable pub finish_and_broadcast : Bdk → Uuid → TxRequest → Action Purse Txid
unfolding data_deallocate_funds log_broadcast
finish_and_broadcast w funds_id tx_builder = do
  psbt ← or_convert (w.finish tx_builder) bdk
  signed ← or_convert (w.sign psbt) bdk
  let tx = w.extract_tx signed
  no_error (w.broadcast tx) bdk
  log_broadcast funds_id tx_builder tx
  height ← gets (λ p. p.purse_data.store.height)
  removed ← data_deallocate_funds funds_id (some height)
  throw_if (not (is_some removed)) (simple (allocated_funds_not_found funds_id))
  pure (w.txid tx)

unfoldable pub send_funds : Bdk → Uuid → Address → Action Purse Txid
unfolding set_fee
send_funds w funds_id address = do
  allocated ← gets (λ p. get funds_id p.purse_data.store.allocated_funds)
  sats ← or_throw allocated (simple (allocated_funds_not_found funds_id))
  network ← gets (λ p. p.network)
  tx_builder ← set_fee w (new_tx_request address sats) network
  finish_and_broadcast w funds_id tx_builder

unfoldable pub get_height : Bdk → Action Purse ℕ
get_height w = or_convert w.get_height bdk

unfoldable pub get_tx_conf : Bdk → Txid → Action Purse ℕ
get_tx_conf w txid = do
  height ← gets (λ p. p.purse_data.store.height)
  found ← or_convert (w.get_tx txid) bdk
  tx_details ← or_throw found tx_not_found
  conf_height ← or_throw tx_details.confirmation_height tx_unconfirmed
  throw_if (ltb height conf_height) (simple conf_height_above_height)
  unwrap (add_u32 w.overflow_checks (height - conf_height) 1)

unfoldable pub sync_blockchain : Bdk → Action Purse ⊤
unfolding data_set_height
sync_blockchain w = do no_error w.sync bdk; height ← unwrap_ok w.get_height; data_set_height height

-- ===== src/Purse/Saving.antt =====
-- Which requests leave a change of the purse's data unsaved.
use fatcrab_trading.Base.{ℕ, Option, none, some, ◌≡◌, arith, true, false}
use fatcrab_trading.Error.{ExternalError}
use fatcrab_trading.Action.{Outcome, ret, raise, panic, final, Result, ok, err}
use fatcrab_trading.Base.Dict.{Uuid}
use fatcrab_trading.Common.{Address, Txid}
use fatcrab_trading.Purse.{
  Purse, Bdk, get_mnemonic, get_rx_address, get_balances, allocate_funds, free_funds, send_funds,
  get_tx_conf, get_height, sync_blockchain, allocatable_balance, total_funds_allocated,
  data_allocate_funds, data_deallocate_funds, data_set_height,
}
use fatcrab_trading.Purse.Actor.{PurseRequest, handle}
use fatcrab_trading.Purse.Spending.{SendOutcome, send_funds-SendOutcome}

abbrev pub IsSaved : Purse → Type 0
IsSaved p = p.purse_data.is_queued ≡ true

SendOutcome-IsSaved :
    (id : Uuid) (address : Address) (p : Purse) (o : Outcome Purse Txid)
    → SendOutcome id address p o
    → IsSaved p
    → IsSaved (final o)
SendOutcome-IsSaved id address p (ret t p') s saved = s.saved
SendOutcome-IsSaved id address p (raise e p') s saved = rw s saved
SendOutcome-IsSaved id address p (panic p') s saved = absurd s

-- What a synchronisation leaves, by the answers of the backend.
abbrev Syncs : Purse → Purse → Option ExternalError → Result ℕ ExternalError → Type 0
Syncs p p' none (ok height) =
    (p'.purse_data.store ≡ record p.purse_data.store { height = height })
    × (p'.purse_data.is_queued ≡ false)
Syncs p p' none (err e) = p' ≡ p
Syncs p p' (some e) answer = p' ≡ p

abbrev pub Saves : Bdk → PurseRequest → Purse → Purse → Type 0
Saves w PurseRequest.sync_blockchain p p' = Syncs p p' w.sync w.get_height
Saves w _ p p' = IsSaved p'

module _ (w : Bdk) (p : Purse) where
  -- If the persister was queued after the last write of the purse's data, it is so after every request, on
  -- every way out, but for one: a synchronisation that gets a height stores it, and leaves it unsaved. One
  -- that fails writes nothing.
  pub handle-Saves :
      (request : PurseRequest) → IsSaved p → Saves w request p (final (handle w request p))
  unfolding handle get_mnemonic get_rx_address get_balances allocate_funds free_funds get_tx_conf
      get_height allocatable_balance total_funds_allocated data_allocate_funds data_deallocate_funds
      sync_blockchain data_set_height
  handle-Saves PurseRequest.sync_blockchain saved = ground arith
  handle-Saves (PurseRequest.send_funds id address) saved = ground (
    arith,
    SendOutcome-IsSaved id address p (send_funds w id address p)
        (send_funds-SendOutcome w id p address) saved,
  )
  handle-Saves _ saved = ground arith

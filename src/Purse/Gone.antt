-- ===== src/Purse/Gone.antt =====
-- What a payment leaves of the funds that it was made from.
use fatcrab_trading.Base.{none, ◌≡◌, arith}
use fatcrab_trading.Base.Dict.{Uuid, get, HasDistinctKeys, get-remove_self, remove-HasDistinctKeys}
use fatcrab_trading.Action.{Outcome, ret, raise, panic}
use fatcrab_trading.Common.{Address, Txid}
use fatcrab_trading.Purse.{Purse, Bdk, send_funds}
use fatcrab_trading.Purse.Spending.{SendOutcome, send_funds-SendOutcome}

-- After a payment under the id.
abbrev pub Gone : Uuid → Purse → Outcome Purse Txid → Type 0
Gone id p (ret t p') =
    HasDistinctKeys p'.purse_data.store.allocated_funds
    × (get id p'.purse_data.store.allocated_funds ≡ none)
Gone id p (raise e p') = p' ≡ p
Gone id p (panic p') = ⊥

SendOutcome-Gone :
    (id : Uuid) (a : Address) (p : Purse) (o : Outcome Purse Txid)
    → HasDistinctKeys p.purse_data.store.allocated_funds
    → SendOutcome id a p o
    → Gone id p o
SendOutcome-Gone id a p (ret t p') d s = ground (
  arith,
  remove-HasDistinctKeys id p.purse_data.store.allocated_funds d,
  get-remove_self id p.purse_data.store.allocated_funds d,
)
SendOutcome-Gone id a p (raise e p') d s = s
SendOutcome-Gone id a p (panic p') d s = s

pub send_funds-Gone :
    (w : Bdk) (id : Uuid) (a : Address) (p : Purse)
    → HasDistinctKeys p.purse_data.store.allocated_funds
    → Gone id p (send_funds w id a p)
send_funds-Gone w id a p d =
    SendOutcome-Gone id a p (send_funds w id a p) d (send_funds-SendOutcome w id p a)

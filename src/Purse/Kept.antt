-- ===== src/Purse/Kept.antt =====
-- The purse's methods that the maker and taker actors call, and what they keep.
use fatcrab_trading.Base.{ℕ, ◌≡◌, arith}
use fatcrab_trading.Base.Dict.{Uuid}
use fatcrab_trading.Action.{final}
use fatcrab_trading.Common.{Address, Txid}
use fatcrab_trading.Purse.{Purse, Bdk, free_funds, send_funds, get_tx_conf}
use fatcrab_trading.Purse.Invariant.{SpentOnceSince, free_funds-SpentOnce, send_funds-SpentOnce}

-- A property of the purse that the three methods keep.
pub record IsKept (P : Purse → Type 0) : Type 0 where
  pub free : (id : Uuid) (p : Purse) → P p → P (final (free_funds id p))
  pub send : (w : Bdk) (id : Uuid) (a : Address) (p : Purse) → P p → P (final (send_funds w id a p))
  pub conf : (w : Bdk) (t : Txid) (p : Purse) → P p → P (final (get_tx_conf w t p))

pub get_tx_conf-purse : (w : Bdk) (t : Txid) (p : Purse) → final (get_tx_conf w t p) ≡ p
unfolding get_tx_conf
get_tx_conf-purse w t p = ground arith

pub SpentOnce-IsKept : {before : ℕ} (id : Uuid) → IsKept (SpentOnceSince before id)
SpentOnce-IsKept id = record {
  free = λ funds_id p h. free_funds-SpentOnce id funds_id p h;
  send = λ w funds_id a p h. send_funds-SpentOnce w id p h funds_id a;
  conf = λ w t p h. rw (get_tx_conf-purse w t p) h;
}

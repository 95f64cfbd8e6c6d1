-- ===== src/Trader/Withdrawal.antt =====
-- What the trader's `wallet_send_to_address` sends.
use fatcrab_trading.Base.{ℕ, ◌≡◌, subst, arith, ◌⊎◌, inr, List, [], ◌∷◌}
use fatcrab_trading.Base.Dict.{Uuid, Dict, insert, remove, get-insert}
use fatcrab_trading.Action.{Outcome, ret, raise, panic}
use fatcrab_trading.Common.{Address, Txid}
use fatcrab_trading.Purse.{
  Purse, Bdk, Broadcast, get_balances, allocate_funds, send_funds, allocatable_balance,
  total_funds_allocated, data_allocate_funds,
}
use fatcrab_trading.Purse.Spending.{SendOutcome, send_funds-SendOutcome}
use fatcrab_trading.Trader.{FatCrabTrader, wallet_send_to_address}

-- One more broadcast, of these sats to this address.
abbrev pub IsPaid : Address → ℕ → List Broadcast → List Broadcast → Type 0
IsPaid a sats sent [] = ⊥
IsPaid a sats sent (b ∷ bs) = (b.request.recipient ≡ a) × (b.request.sats ≡ sats) × (bs ≡ sent)

abbrev pub funds : Purse → Dict ℕ
funds p = p.purse_data.store.allocated_funds

abbrev Granted : Uuid → ℕ → Purse → Outcome Purse Uuid → Type 0
Granted new sats p (ret id p') =
    (id ≡ new) × (funds p' ≡ insert new sats (funds p)) × (p'.sent ≡ p.sent)
Granted new sats p (raise e p') = p' ≡ p
Granted new sats p (panic p') = p' ≡ p

allocate_funds-Granted :
    (w : Bdk) (sats : ℕ) (p : Purse) → Granted w.new_uuid sats p (allocate_funds w sats p)
unfolding allocate_funds allocatable_balance total_funds_allocated data_allocate_funds
allocate_funds-Granted w sats p = ground arith

-- A withdrawal of these sats, set aside under this id, from a purse: what it does on each way out. A failure
-- leaves the purse as it was, or the sats set aside.
abbrev pub Pays : Uuid → Address → ℕ → Purse → Outcome Purse Txid → Type 0
Pays id a sats p (ret txid p') =
    IsPaid a sats p.sent p'.sent × (funds p' ≡ remove id (insert id sats (funds p)))
Pays id a sats p (raise e p') =
    (p' ≡ p) ⊎ ((p'.sent ≡ p.sent) × (funds p' ≡ insert id sats (funds p)))
Pays id a sats p (panic p') = p' ≡ p

pays :
    (id : Uuid) (a : Address) (sats : ℕ) (p q : Purse) (o : Outcome Purse Txid)
    → funds q ≡ insert id sats (funds p)
    → q.sent ≡ p.sent
    → SendOutcome id a q o
    → Pays id a sats p o
pays id a sats p q (ret txid p') g e s = ground (
  arith,
  get-insert id id sats (funds p),
  s.logged,
  s.pays,
  s.pays_to,
  s.was_allocated,
  s.deallocated,
)
pays id a sats p q (raise x p') g e s = inr (ground arith)
pays id a sats p q (panic p') g e s = absurd s

-- The funds are granted, or not, and then sent.
abbrev PaysFrom : Bdk → Uuid → Address → ℕ → Purse → Outcome Purse Uuid → Type 0
PaysFrom w new a sats p (ret id p') = Pays new a sats p (send_funds w id a p')
PaysFrom w new a sats p (raise e p') = p' ≡ p
PaysFrom w new a sats p (panic p') = p' ≡ p

pays_from :
    (w : Bdk) (new : Uuid) (a : Address) (sats : ℕ) (p : Purse) (o : Outcome Purse Uuid)
    → Granted new sats p o
    → PaysFrom w new a sats p o
pays_from w new a sats p (ret id p') (is, g, e) =
    pays new a sats p p' (send_funds w id a p') g e
      (subst (λ i. SendOutcome i a p' (send_funds w id a p')) is (send_funds-SendOutcome w id p' a))
pays_from w new a sats p (raise x p') g = g
pays_from w new a sats p (panic p') g = g

abbrev AreUntouched : FatCrabTrader → FatCrabTrader → Type 0
AreUntouched t t' = (t'.makers ≡ t.makers) × (t'.takers ≡ t.takers)

abbrev pub Withdraws : Uuid → Address → ℕ → FatCrabTrader → Outcome FatCrabTrader Txid → Type 0
Withdraws id a sats t (ret txid t') = Pays id a sats t.purse (ret txid t'.purse) × AreUntouched t t'
Withdraws id a sats t (raise e t') = Pays id a sats t.purse (raise e t'.purse) × AreUntouched t t'
Withdraws id a sats t (panic t') = Pays id a sats t.purse (panic t'.purse) × AreUntouched t t'

-- A withdrawal that succeeds has broadcast one transaction, of just these sats to just this address, and
-- what it had set aside for it under a new id is gone. One that fails has broadcast none; either the
-- purse is as it was, or the sats are still set aside under that id, which nobody is told. In no case
-- does it touch a trade.
pub wallet_send_to_address-Withdraws :
    (w w' w'' : Bdk) (a : Address) (sats : ℕ) (t : FatCrabTrader)
    → Withdraws w'.new_uuid a sats t (wallet_send_to_address w w' w'' a sats t)
unfolding wallet_send_to_address get_balances total_funds_allocated
wallet_send_to_address-Withdraws w w' w'' a sats t = ground (
  arith,
  pays_from w'' w'.new_uuid a sats t.purse (allocate_funds w' sats t.purse)
      (allocate_funds-Granted w' sats t.purse),
)

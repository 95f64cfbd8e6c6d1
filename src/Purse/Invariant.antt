-- ===== src/Purse/Invariant.antt =====
-- What holds of the purse after every request, and over a whole run of the actor.
use fatcrab_trading.Base.{
  ℕ, suc, ◌+◌, ◌≡◌, ◌≢◌, ⊤, arith, none, List, [], ◌∷◌, ◌⊎◌, ◌==◌, if◌then◌else◌,
}
use fatcrab_trading.Base.Dict.{
  Uuid, get, HasDistinctKeys, insert-HasDistinctKeys, remove-HasDistinctKeys, get-insert,
  get-remove_self, get-remove-none,
}
use fatcrab_trading.Action.{Outcome, ret, raise, panic, final}
use fatcrab_trading.Common.{Address, Txid}
use fatcrab_trading.Purse.{
  Purse, Bdk, Broadcast, get_mnemonic, get_rx_address, get_balances, allocate_funds, free_funds,
  send_funds, get_tx_conf, get_height, sync_blockchain, allocatable_balance, total_funds_allocated,
  data_allocate_funds, data_deallocate_funds, data_set_height,
}
use fatcrab_trading.Purse.Actor.{PurseRequest, handle, run}
use fatcrab_trading.Purse.Spending.{Spends, SendOutcome, send_funds-SendOutcome}

-- How often funds were broadcast.
abbrev pub times_sent : Uuid → List Broadcast → ℕ
times_sent id [] = 0
times_sent id (b ∷ bs) = let rest = times_sent id bs in if id == b.funds_id then suc rest else rest

-- One entry for an id, and the funds `id`, with the `before` times that an earlier run of the trader
-- broadcast them, were never spent, or once and are gone.
pub record SpentOnceSince (before : ℕ) (id : Uuid) (p : Purse) : Type 0 where
  pub distinct : HasDistinctKeys p.purse_data.store.allocated_funds
  pub once :
      (before + times_sent id p.sent ≡ 0)
      ⊎ ((before + times_sent id p.sent ≡ 1) × (get id p.purse_data.store.allocated_funds ≡ none))

-- The same in the first run.
abbrev pub SpentOnce : Uuid → Purse → Type 0
SpentOnce id p = SpentOnceSince 0 id p

Spends-SpentOnce :
    {before : ℕ} (id funds_id : Uuid) {address : Address} (p p' : Purse)
    → Spends funds_id address p p'
    → SpentOnceSince before id p
    → SpentOnceSince before id p'
Spends-SpentOnce id funds_id p p' s h = ground (
  arith,
  remove-HasDistinctKeys funds_id p.purse_data.store.allocated_funds h.distinct,
  get-remove_self funds_id p.purse_data.store.allocated_funds h.distinct,
  get-remove-none id funds_id p.purse_data.store.allocated_funds,
)

SendOutcome-SpentOnce :
    {before : ℕ} (id funds_id : Uuid) (address : Address) (p : Purse) (o : Outcome Purse Txid)
    → SendOutcome funds_id address p o
    → SpentOnceSince before id p
    → SpentOnceSince before id (final o)
SendOutcome-SpentOnce id funds_id address p (ret t p') s h = Spends-SpentOnce id funds_id p p' s h
SendOutcome-SpentOnce id funds_id address p (raise e p') s h = rw s h
SendOutcome-SpentOnce id funds_id address p (panic p') s h = absurd s

pub free_funds-SpentOnce :
    {before : ℕ} (id funds_id : Uuid) (p : Purse)
    → SpentOnceSince before id p
    → SpentOnceSince before id (final (free_funds funds_id p))
unfolding free_funds data_deallocate_funds
free_funds-SpentOnce id funds_id p h = ground (
  arith,
  remove-HasDistinctKeys funds_id p.purse_data.store.allocated_funds h.distinct,
  get-remove-none id funds_id p.purse_data.store.allocated_funds,
)

module _ {before : ℕ} (w : Bdk) (id : Uuid) (p : Purse) (h : SpentOnceSince before id p) where
  pub send_funds-SpentOnce :
      (funds_id : Uuid) (address : Address)
      → SpentOnceSince before id (final (send_funds w funds_id address p))
  send_funds-SpentOnce funds_id address =
      SendOutcome-SpentOnce id funds_id address p (send_funds w funds_id address p)
        (send_funds-SendOutcome w funds_id p address) h

  pub allocate_funds-SpentOnce :
      (sats : ℕ) → w.new_uuid ≢ id → SpentOnceSince before id (final (allocate_funds w sats p))
  unfolding allocate_funds allocatable_balance total_funds_allocated data_allocate_funds
  allocate_funds-SpentOnce sats new = ground (
    arith,
    insert-HasDistinctKeys w.new_uuid sats p.purse_data.store.allocated_funds h.distinct,
    get-insert id w.new_uuid sats p.purse_data.store.allocated_funds,
  )

  -- Every request keeps the funds `id` spent at most once, unless it hands out `id` anew.
  pub handle-SpentOnce :
      (request : PurseRequest)
      → w.new_uuid ≢ id
      → SpentOnceSince before id (final (handle w request p))
  unfolding handle get_mnemonic get_rx_address get_balances get_tx_conf get_height sync_blockchain
      total_funds_allocated data_set_height
  handle-SpentOnce (PurseRequest.send_funds funds_id address) new =
      ground (arith, send_funds-SpentOnce funds_id address)
  handle-SpentOnce (PurseRequest.free_funds funds_id) new =
      ground (arith, free_funds-SpentOnce id funds_id p h)
  handle-SpentOnce (PurseRequest.allocate_funds sats) new =
      ground (arith, allocate_funds-SpentOnce sats new)
  handle-SpentOnce _ new = ground arith

-- No request of the list hands out `id`: what `Uuid::new_v4` promises.
abbrev pub NeverReissued : Uuid → List (Bdk × PurseRequest) → Type 0
NeverReissued id [] = ⊤
NeverReissued id ((w, request) ∷ requests) = (w.new_uuid ≢ id) × NeverReissued id requests

-- Funds that were never broadcast so far, or once and are gone, stay so over every run of the
-- purse: whatever requests it serves, in any order and with any answers from the wallet, they are
-- broadcast at most once. This supposes one entry for an id at the start, and that the wallet
-- does not hand out their id again.
pub run-SpentOnce :
    (id : Uuid) (requests : List (Bdk × PurseRequest)) (p : Purse)
    → NeverReissued id requests
    → SpentOnce id p
    → SpentOnce id (final (run requests p))
unfolding run
run-SpentOnce id [] p new h = h
run-SpentOnce id ((w, request) ∷ requests) p new h = ground (
  arith,
  handle-SpentOnce w id p h request new.0,
  run-SpentOnce id requests (final (handle w request p)) new.1,
)

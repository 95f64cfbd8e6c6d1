-- ===== src/Purse/Store.antt =====
-- src/purse/data.rs: the purse's persisted data and its setters, over the state of the actor.
use fatcrab_trading.Base.{ℕ, ⊤, Bool, true, false, Option, none, some, List, [], ◌∷◌}
use fatcrab_trading.Base.Dict.{Uuid, Dict, get, insert, remove}
use fatcrab_trading.Action.{unwrap, Action, pure, ◌>>=◌, ◌>>◌, gets, modify, add_u64}
use fatcrab_trading.Common.{Network}
use fatcrab_trading.Purse.Wallet.{TxRequest, Tx}

pub record PurseDataStore : Type 0 where
  pub network : Network
  pub height : ℕ
  pub allocated_funds : Dict ℕ

-- `is_queued`: the persister was queued after the last write of the store.
pub record PurseData : Type 0 where
  pub store : PurseDataStore
  pub is_queued : Bool

-- What the backend was handed to broadcast, and for which funds.
pub record Broadcast : Type 0 where
  pub funds_id : Uuid
  pub request : TxRequest
  pub tx : Tx

-- `PurseActor`. `network` is the wallet's; `sent` is the record of the broadcasts.
pub record Purse : Type 0 where
  pub network : Network
  pub purse_data : PurseData
  pub sent : List Broadcast

-- A write of the store under its lock; the persister has not been told yet.
abbrev pub write_store : (PurseDataStore → PurseDataStore) → Action Purse ⊤
write_store f =
    modify
      (λ p. record p { purse_data = record { store = f p.purse_data.store; is_queued = false } })

-- `self.persister.queue()`.
abbrev pub queue : Action Purse ⊤
queue =
    modify (λ p. record p { purse_data = record { store = p.purse_data.store; is_queued = true } })

abbrev set_height_if_some : Option ℕ → PurseDataStore → PurseDataStore
set_height_if_some none s = s
set_height_if_some (some height) s = record s { height = height }

-- PurseData::set_height: there is no `queue` in it.
unfoldable pub data_set_height : ℕ → Action Purse ⊤
data_set_height height = write_store (λ s. record s { height = height })

-- `values().sum::<u64>()`; `none` is the overflow panic.
unfoldable pub sum_from : Bool → ℕ → Dict ℕ → Option ℕ
sum_from checks acc [] = some acc
sum_from checks acc ((k, v) ∷ d) = elim (add_u64 checks acc v) [
  | some total ↦ sum_from checks total d
  | none ↦ none
]

unfoldable pub total_funds_allocated : Bool → Action Purse ℕ
unfolding sum_from
total_funds_allocated checks = do
  allocated ← gets (λ p. p.purse_data.store.allocated_funds)
  unwrap (sum_from checks 0 allocated)

unfoldable pub data_allocate_funds : Uuid → ℕ → Option ℕ → Action Purse ⊤
data_allocate_funds uuid amount height = do
  write_store (λ s.
      set_height_if_some height
        (record s { allocated_funds = insert uuid amount s.allocated_funds }))
  queue

-- The removed amount, if there was one.
unfoldable pub data_deallocate_funds : Uuid → Option ℕ → Action Purse (Option ℕ)
data_deallocate_funds uuid height = do
  sats ← gets (λ p. get uuid p.purse_data.store.allocated_funds)
  write_store (λ s.
      set_height_if_some height (record s { allocated_funds = remove uuid s.allocated_funds }))
  queue
  pure sats

unfoldable pub log_broadcast : Uuid → TxRequest → Tx → Action Purse ⊤
log_broadcast funds_id request tx =
    modify
      (λ p. record p { sent = record { funds_id = funds_id; request = request; tx = tx } ∷ p.sent })

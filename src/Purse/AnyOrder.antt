-- ===== src/Purse/AnyOrder.antt =====
-- What the purse's actor does does not depend on the order in which its `HashMap` holds the entries.
use fatcrab_trading.Base.{
  ℕ, Bool, some, List, [], ◌∷◌, if◌then◌else◌, refl, ap, Bool-cases, inl, inr, arith,
}
use fatcrab_trading.Base.Dict.{Uuid, get, insert-HasDistinctKeys, remove-HasDistinctKeys}
use fatcrab_trading.Action.{gets, pure, fail, Fallible}
use fatcrab_trading.Error.{bdk}
use fatcrab_trading.Common.{Address, Txid, balances_from, is_regtest}
use fatcrab_trading.Purse
use fatcrab_trading.Purse.{
  Purse, Bdk, Tx, TxRequest, data_set_height, sum_from, total_funds_allocated, data_allocate_funds,
  data_deallocate_funds, allocatable_balance, set_fee, new_tx_request, finish_and_broadcast,
  log_broadcast,
}
use fatcrab_trading.Purse.Actor.{PurseRequest, PurseReply, handle, run}
use fatcrab_trading.Purse.Alike.{
  Alike, AreAlike, Respects, pure-Respects, gets-Respects, bind-Respects, attempt-Respects,
  unwrap-Respects, unwrap_ok-Respects, or_throw-Respects, or_convert-Respects, no_error-Respects,
  throw_if-Respects, if-Respects, fail-Respects,
}
use fatcrab_trading.Purse.Iteration.{sum_from-Same, remove-Same, insert-Same}

total_funds_allocated-Respects : (checks : Bool) → Respects (total_funds_allocated checks)
unfolding total_funds_allocated
total_funds_allocated-Respects checks = record {
  alike = λ p q h. ground (
    arith,
    sum_from-Same checks p.purse_data.store.allocated_funds q.purse_data.store.allocated_funds
        h.distinct h.distinct_too h.same,
  );
}

data_allocate_funds-Respects :
    (id : Uuid) (sats : ℕ) (height : ℕ) → Respects (data_allocate_funds id sats (some height))
unfolding data_allocate_funds
data_allocate_funds-Respects id sats height = record {
  alike = λ p q h. (
    refl,
    record {
      network = h.network;
      store_network = h.store_network;
      height = refl;
      is_queued = refl;
      sent = h.sent;
      distinct = insert-HasDistinctKeys id sats p.purse_data.store.allocated_funds h.distinct;
      distinct_too =
          insert-HasDistinctKeys id sats q.purse_data.store.allocated_funds h.distinct_too;
      same =
          insert-Same id sats p.purse_data.store.allocated_funds q.purse_data.store.allocated_funds
            h.same;
    },
  );
}

data_deallocate_funds-Respects :
    (id : Uuid) (height : ℕ) → Respects (data_deallocate_funds id (some height))
unfolding data_deallocate_funds
data_deallocate_funds-Respects id height = record {
  alike = λ p q h. (
    h.same id,
    record {
      network = h.network;
      store_network = h.store_network;
      height = refl;
      is_queued = refl;
      sent = h.sent;
      distinct = remove-HasDistinctKeys id p.purse_data.store.allocated_funds h.distinct;
      distinct_too = remove-HasDistinctKeys id q.purse_data.store.allocated_funds h.distinct_too;
      same =
          remove-Same id p.purse_data.store.allocated_funds q.purse_data.store.allocated_funds
            h.distinct h.distinct_too h.same;
    },
  );
}

height-Respects : Respects (gets (λ p. p.purse_data.store.height))
height-Respects = gets-Respects (λ p. p.purse_data.store.height) (λ p q h. h.height)

allocated-Respects : (id : Uuid) → Respects (gets (λ p. get id p.purse_data.store.allocated_funds))
allocated-Respects id =
    gets-Respects (λ p. get id p.purse_data.store.allocated_funds) (λ p q h. h.same id)

network-Respects : Respects (gets (λ p. p.network))
network-Respects = gets-Respects (λ p. p.network) (λ p q h. h.network)

module _ (w : Bdk) where
  get_balances-Respects : Respects (Purse.get_balances w)
  unfolding Purse.get_balances
  get_balances-Respects = bind-Respects _ _ (or_convert-Respects w.get_balance bdk) (λ balance.
      bind-Respects _ _ (total_funds_allocated-Respects w.overflow_checks)
        (λ allocated. pure-Respects (balances_from balance allocated)))

  allocatable_balance-Respects : Respects (allocatable_balance w)
  unfolding allocatable_balance
  allocatable_balance-Respects = bind-Respects _ _ (unwrap_ok-Respects w.get_balance) (λ balance.
      bind-Respects _ _ (unwrap-Respects _) (λ spendable.
        bind-Respects _ _ (total_funds_allocated-Respects w.overflow_checks)
          (λ allocated. unwrap-Respects _)))

  allocate_funds-Respects : (sats : ℕ) → Respects (Purse.allocate_funds w sats)
  unfolding Purse.allocate_funds
  allocate_funds-Respects sats = bind-Respects _ _ allocatable_balance-Respects (λ allocatable.
      bind-Respects _ _ (throw_if-Respects _ _) (λ _. bind-Respects _ _ height-Respects (λ height.
        bind-Respects _ _ (data_allocate_funds-Respects w.new_uuid sats height)
          (λ _. pure-Respects w.new_uuid))))

  log_broadcast-Respects :
      (id : Uuid) (request : TxRequest) (tx : Tx) → Respects (log_broadcast id request tx)
  unfolding log_broadcast
  log_broadcast-Respects id request tx = record {
    alike = λ p q h. (
      refl,
      record {
        network = h.network;
        store_network = h.store_network;
        height = h.height;
        is_queued = h.is_queued;
        sent = ap (λ sent. record { funds_id = id; request = request; tx = tx } ∷ sent) h.sent;
        distinct = h.distinct;
        distinct_too = h.distinct_too;
        same = h.same;
      },
    );
  }

  data_set_height-Respects : (height : ℕ) → Respects (data_set_height height)
  unfolding data_set_height
  data_set_height-Respects height = record {
    alike = λ p q h. (
      refl,
      record {
        network = h.network;
        store_network = h.store_network;
        height = refl;
        is_queued = refl;
        sent = h.sent;
        distinct = h.distinct;
        distinct_too = h.distinct_too;
        same = h.same;
      },
    );
  }

  free_funds-Respects : (id : Uuid) → Respects (Purse.free_funds id)
  unfolding Purse.free_funds
  free_funds-Respects id =
      search (bind-Respects, height-Respects, data_deallocate_funds-Respects, throw_if-Respects)

  set_fee-Respects : (request : TxRequest) (network : _) → Respects (set_fee w request network)
  unfolding set_fee
  set_fee-Respects request network = elim (Bool-cases (is_regtest network)) [
    | inl e ↦ rw (e, set_fee) (pure-Respects request)
    | inr e ↦ rw (e, set_fee) (search (bind-Respects, or_convert-Respects, pure-Respects))
  ]

  finish_and_broadcast-Respects :
      (id : Uuid) (request : TxRequest) → Respects (finish_and_broadcast w id request)
  unfolding finish_and_broadcast
  finish_and_broadcast-Respects id request =
      search
        (
          bind-Respects, or_convert-Respects, no_error-Respects, log_broadcast-Respects,
          height-Respects, data_deallocate_funds-Respects, throw_if-Respects, pure-Respects,
        )
        depth 12

  send_funds-Respects : (id : Uuid) (address : Address) → Respects (Purse.send_funds w id address)
  unfolding Purse.send_funds
  send_funds-Respects id address = search (
    bind-Respects, allocated-Respects, network-Respects, or_throw-Respects, set_fee-Respects,
    finish_and_broadcast-Respects,
  )

  get_tx_conf-Respects : (txid : Txid) → Respects (Purse.get_tx_conf w txid)
  unfolding Purse.get_tx_conf
  get_tx_conf-Respects txid =
      search
        (
          bind-Respects, height-Respects, or_convert-Respects, or_throw-Respects, throw_if-Respects,
          unwrap-Respects,
        )
        depth 12

  sync_blockchain-Respects : Respects (Purse.sync_blockchain w)
  unfolding Purse.sync_blockchain
  sync_blockchain-Respects =
      search (bind-Respects, no_error-Respects, unwrap_ok-Respects, data_set_height-Respects)

  reply-Respects :
      {A : Type 0} (f : Fallible A → PurseReply) (r : Fallible A)
      → Respects (if w.rsp_open then pure (f r) else fail)
  reply-Respects f r = if-Respects w.rsp_open (pure-Respects (f r)) fail-Respects

  handle-Respects : (request : PurseRequest) → Respects (handle w request)
  unfolding handle Purse.get_mnemonic Purse.get_rx_address Purse.get_height
  handle-Respects PurseRequest.get_mnemonic =
      search (bind-Respects, attempt-Respects, or_convert-Respects, reply-Respects)
  handle-Respects PurseRequest.get_rx_address =
      search (bind-Respects, attempt-Respects, or_convert-Respects, reply-Respects)
  handle-Respects PurseRequest.get_height =
      search (bind-Respects, attempt-Respects, or_convert-Respects, reply-Respects)
  handle-Respects PurseRequest.get_balances =
      search (bind-Respects, attempt-Respects, get_balances-Respects, reply-Respects)
  handle-Respects (PurseRequest.allocate_funds sats) =
      search (bind-Respects, attempt-Respects, allocate_funds-Respects, reply-Respects)
  handle-Respects (PurseRequest.free_funds id) =
      search (bind-Respects, attempt-Respects, free_funds-Respects, reply-Respects)
  handle-Respects (PurseRequest.send_funds id a) =
      search (bind-Respects, attempt-Respects, send_funds-Respects, reply-Respects)
  handle-Respects (PurseRequest.get_tx_conf t) =
      search (bind-Respects, attempt-Respects, get_tx_conf-Respects, reply-Respects)
  handle-Respects PurseRequest.sync_blockchain =
      search (bind-Respects, attempt-Respects, sync_blockchain-Respects, reply-Respects)
  handle-Respects PurseRequest.shutdown =
      search (bind-Respects, attempt-Respects, pure-Respects, reply-Respects)

run-Respects : (requests : List (Bdk × PurseRequest)) → Respects (run requests)
unfolding run
run-Respects [] = pure-Respects []
run-Respects ((w, request) ∷ requests) =
    bind-Respects (handle w request) _ (handle-Respects w request) (λ reply.
      bind-Respects _ _ (if-Respects _ (pure-Respects []) (run-Respects requests))
        (λ replies. pure-Respects (reply ∷ replies)))

-- A `HashMap` holds its entries in an order that differs from run to run. It cannot be observed: two purses
-- with the same entries, in whatever order, answer every sequence of requests in the same way, with any
-- answers from the wallet and also where a sum overflows, and they broadcast the same and stay alike.
-- This supposes one entry for an id in each.
pub run-AreAlike :
    (requests : List (Bdk × PurseRequest)) (p q : Purse)
    → Alike p q
    → AreAlike (run requests p) (run requests q)
run-AreAlike requests p q h = (run-Respects requests).alike p q h

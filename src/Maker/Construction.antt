-- ===== src/Maker/Construction.antt =====
-- What a new maker starts with.
use fatcrab_trading.Base.{ℕ, ◌≡◌, arith, Option, none, some, String, []}
use fatcrab_trading.Base.Dict.{get, HasDistinctKeys, insert-HasDistinctKeys, get-insert}
use fatcrab_trading.Action.{Outcome, ret, raise, panic}
use fatcrab_trading.Common.{Float}
use fatcrab_trading.Order.{FatCrabOrder}
use fatcrab_trading.Purse.{
  Purse, allocate_funds, allocatable_balance, total_funds_allocated, data_allocate_funds,
  get_rx_address,
}
use fatcrab_trading.Maker.{
  World, FatCrabMakerActor, FatCrabMakerInnerActor, buy_actor, sell_actor, actor_new,
}
use fatcrab_trading.Maker.Buy
use fatcrab_trading.Maker.Sell
use fatcrab_trading.Maker.Types.{MakerEnv, FatCrabMakerState}
use fatcrab_trading.Maker.Machine.{state_in}
use fatcrab_trading.Maker.Consistency.{IsConsistentWorld}

abbrev pub begin : FatCrabMakerActor → Purse → World
begin a p = record { self = a; purse = p; out = [] }

-- What is set aside for the order: nothing for a sell order.
abbrev pub SetsAside : ℕ → FatCrabMakerInnerActor → Purse → Purse → Type 0
SetsAside sats (buy_actor b) p p' =
    (get b.buy_data.store.btc_funds_id p.purse_data.store.allocated_funds ≡ none)
    × (get b.buy_data.store.btc_funds_id p'.purse_data.store.allocated_funds ≡ some sats)
SetsAside sats (sell_actor s) p p' = p' ≡ p

abbrev pub Begins : ℕ → Purse → Outcome Purse FatCrabMakerActor → Type 0
Begins sats p (ret a p') =
    IsConsistentWorld (begin a p')
    × (state_in (begin a p') ≡ FatCrabMakerState.new)
    × SetsAside sats a.inner p p'
Begins sats p (raise e p') = p' ≡ p
Begins sats p (panic p') = p' ≡ p

module _ (f : Float) (env : MakerEnv) where
  -- A new maker starts in the state `New`, with data that agree with it; for a buy order, the whole
  -- part of amount times price stands under its funds' id, which is new. If it cannot start, by an
  -- error or a panic, the purse is as before. This supposes a purse with one entry for an id, and
  -- that `Uuid::new_v4` gives a new one.
  pub actor_new-Begins :
      (o : FatCrabOrder) (fatcrab_rx_addr : Option String) (p : Purse)
      → HasDistinctKeys p.purse_data.store.allocated_funds
      → get env.wallet.new_uuid p.purse_data.store.allocated_funds ≡ none
      → Begins (f.to_u64 (f.mul o.amount o.price)) p (actor_new f env o fatcrab_rx_addr p)
  unfolding actor_new Buy.actor_new Sell.actor_new allocate_funds allocatable_balance
      total_funds_allocated data_allocate_funds get_rx_address
  actor_new-Begins o fatcrab_rx_addr p distinct fresh =
      let sats = f.to_u64 (f.mul o.amount o.price) in
      let funds = p.purse_data.store.allocated_funds in
      ground (
        arith,
        insert-HasDistinctKeys env.wallet.new_uuid sats funds distinct,
        get-insert env.wallet.new_uuid env.wallet.new_uuid sats funds,
      )

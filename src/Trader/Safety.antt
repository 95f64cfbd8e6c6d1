-- ===== src/Trader/Safety.antt =====
-- What holds of the money over every interleaving of the trades.
use fatcrab_trading.Base.{
  ℕ, ◌≢◌, ⊤, arith, Option, none, some, String, List, [], ◌∷◌, Option-cases, inl, inr,
}
use fatcrab_trading.Base.Dict.{Uuid, get}
use fatcrab_trading.Action.{Outcome, ret, raise, panic, final}
use fatcrab_trading.Common.{Address, Float}
use fatcrab_trading.Order.{FatCrabOrder, FatCrabOrderEnvelope, into}
use fatcrab_trading.Offer.{create_n3xb_offer}
use fatcrab_trading.Purse.{
  Purse, Bdk, get_balances, allocate_funds, send_funds, get_rx_address, total_funds_allocated,
}
use fatcrab_trading.Purse.Invariant.{
  SpentOnce, SpentOnceSince, handle-SpentOnce, allocate_funds-SpentOnce, send_funds-SpentOnce,
}
use fatcrab_trading.Purse.Kept.{SpentOnce-IsKept}
use fatcrab_trading.Maker
use fatcrab_trading.Maker.Types.{MakerEnv, MakerEvent}
use fatcrab_trading.Maker.Funds.{handle_event-kept}
use fatcrab_trading.Taker
use fatcrab_trading.Taker.Types.{TakerEnv, TakerEvent}
use fatcrab_trading.Taker.Funds.{taker_handle_event-kept}
use fatcrab_trading.Trader.Types.{TraderEvent}
use fatcrab_trading.Trader.{
  FatCrabTrader, advance, advance_all, maker_round, taker_round, wallet_send_to_address,
  new_buy_maker, new_sell_maker, new_buy_taker, new_sell_taker,
}

module _ (id : Uuid) where
  -- The event does not hand out the id: what `Uuid::new_v4` promises.
  abbrev pub IsNotReissued : TraderEvent → Type 0
  IsNotReissued (TraderEvent.wallet w r) = w.new_uuid ≢ id
  IsNotReissued (TraderEvent.wallet_send_to_address w w' w'' a sats) = w'.new_uuid ≢ id
  IsNotReissued (TraderEvent.new_buy_maker env o addr) = env.wallet.new_uuid ≢ id
  IsNotReissued (TraderEvent.new_sell_maker env o) = env.wallet.new_uuid ≢ id
  IsNotReissued (TraderEvent.new_buy_taker env o) = env.wallet.new_uuid ≢ id
  IsNotReissued (TraderEvent.new_sell_taker env o addr) = env.wallet.new_uuid ≢ id
  IsNotReissued _ = ⊤

  abbrev pub AreNotReissued : List TraderEvent → Type 0
  AreNotReissued [] = ⊤
  AreNotReissued (e ∷ events) = IsNotReissued e × AreNotReissued events

module _ (before : ℕ) (id : Uuid) where
  maker_new-SpentOnce :
      (f : Float) (env : MakerEnv) (o : FatCrabOrder) (addr : Option String) (p : Purse)
      → env.wallet.new_uuid ≢ id
      → SpentOnceSince before id p
      → SpentOnceSince before id (final (Maker.actor_new f env o addr p))
  unfolding Maker.actor_new Maker.Buy.actor_new Maker.Sell.actor_new get_rx_address
  maker_new-SpentOnce f env o addr p new h =
      ground
        (arith, allocate_funds-SpentOnce env.wallet id p h (f.to_u64 (f.mul o.amount o.price)) new)

  taker_new-SpentOnce :
      (f : Float) (env : TakerEnv) (o : FatCrabOrderEnvelope) (addr : Option String) (p : Purse)
      → env.wallet.new_uuid ≢ id
      → SpentOnceSince before id p
      → SpentOnceSince before id (final (Taker.actor_new f env o addr p))
  unfolding Taker.actor_new Taker.Buy.actor_new Taker.Sell.actor_new get_rx_address
  taker_new-SpentOnce f env o addr p new h = ground (
    arith,
    allocate_funds-SpentOnce env.wallet id p h (f.to_u64 (f.mul o.order.amount o.order.price)) new,
  )

  abbrev Sends : Bdk → Address → Outcome Purse Uuid → Type 0
  Sends w a (ret funds_id p) = SpentOnceSince before id (final (send_funds w funds_id a p))
  Sends w a (raise e p) = SpentOnceSince before id p
  Sends w a (panic p) = SpentOnceSince before id p

  sends :
      (w : Bdk) (a : Address) (o : Outcome Purse Uuid)
      → SpentOnceSince before id (final o)
      → Sends w a o
  sends w a (ret funds_id p) h = send_funds-SpentOnce w id p h funds_id a
  sends w a (raise e p) h = h
  sends w a (panic p) h = h

  send_to_address-SpentOnce :
      (w w' w'' : Bdk) (a : Address) (sats : ℕ) (t : FatCrabTrader)
      → w'.new_uuid ≢ id
      → SpentOnceSince before id t.purse
      → SpentOnceSince before id (final (wallet_send_to_address w w' w'' a sats t)).purse
  unfolding wallet_send_to_address get_balances total_funds_allocated
  send_to_address-SpentOnce w w' w'' a sats t new h = ground (
    arith,
    sends w'' a (allocate_funds w' sats t.purse)
        (allocate_funds-SpentOnce w' id t.purse h sats new),
  )

  maker_round-SpentOnce :
      (env : MakerEnv) (uuid : Uuid) (e : MakerEvent) (t : FatCrabTrader)
      → SpentOnceSince before id t.purse
      → SpentOnceSince before id (maker_round env uuid e t).purse
  unfolding maker_round
  maker_round-SpentOnce env uuid e t h = elim (Option-cases (get uuid t.makers)) [
    | inl n ↦ ground arith
    | inr (task, n) ↦ ground (
      arith,
      handle_event-kept (SpentOnceSince before id) (SpentOnce-IsKept id) env e
          (record { self = task.self; purse = t.purse; out = task.out }) h,
    )
  ]

  taker_round-SpentOnce :
      (env : TakerEnv) (uuid : Uuid) (e : TakerEvent) (t : FatCrabTrader)
      → SpentOnceSince before id t.purse
      → SpentOnceSince before id (taker_round env uuid e t).purse
  unfolding taker_round
  taker_round-SpentOnce env uuid e t h = elim (Option-cases (get uuid t.takers)) [
    | inl n ↦ ground arith
    | inr (task, n) ↦ ground (
      arith,
      taker_handle_event-kept (SpentOnceSince before id) (SpentOnce-IsKept id) env e
          (record { self = task.self; purse = t.purse; out = task.out }) h,
    )
  ]

  module _ (f : Float) where
    advance-SpentOnce :
        (e : TraderEvent) (t : FatCrabTrader)
        → IsNotReissued id e
        → SpentOnceSince before id t.purse
        → SpentOnceSince before id (advance f e t).purse
    unfolding advance new_buy_maker new_sell_maker new_buy_taker new_sell_taker into
        create_n3xb_offer
    advance-SpentOnce (TraderEvent.wallet w r) t new h =
        ground (arith, handle-SpentOnce w id t.purse h r new)
    advance-SpentOnce (TraderEvent.wallet_send_to_address w w' w'' a sats) t new h =
        send_to_address-SpentOnce w w' w'' a sats t new h
    advance-SpentOnce (TraderEvent.new_buy_maker env o addr) t new h =
        ground (arith, maker_new-SpentOnce f env o (some addr) t.purse new h)
    advance-SpentOnce (TraderEvent.new_sell_maker env o) t new h =
        ground (arith, maker_new-SpentOnce f env o none t.purse new h)
    advance-SpentOnce (TraderEvent.new_buy_taker env o) t new h =
        ground (arith, taker_new-SpentOnce f env o none t.purse new h)
    advance-SpentOnce (TraderEvent.new_sell_taker env o addr) t new h =
        ground (arith, taker_new-SpentOnce f env o (some addr) t.purse new h)
    advance-SpentOnce (TraderEvent.maker env uuid e) t new h = maker_round-SpentOnce env uuid e t h
    advance-SpentOnce (TraderEvent.taker env uuid e) t new h = taker_round-SpentOnce env uuid e t h

    pub advance_all-SpentOnceSince :
        (events : List TraderEvent) (t : FatCrabTrader)
        → AreNotReissued id events
        → SpentOnceSince before id t.purse
        → SpentOnceSince before id (advance_all f events t).purse
    unfolding advance_all
    advance_all-SpentOnceSince [] t new h = h
    advance_all-SpentOnceSince (e ∷ events) t new h =
        advance_all-SpentOnceSince events (advance f e t) new.1 (advance-SpentOnce e t new.0 h)

module _ (id : Uuid) (f : Float) where
  -- However the trader's calls, the requests to the purse and the rounds of all makers and takers
  -- interleave, and whatever the wallet, the exchange and the peers answer: funds that were never
  -- broadcast so far, or once and are gone, stay so. This supposes one entry for an id at the
  -- start, and that their id is not handed out again.
  pub advance_all-SpentOnce :
      (events : List TraderEvent) (t : FatCrabTrader)
      → AreNotReissued id events
      → SpentOnce id t.purse
      → SpentOnce id (advance_all f events t).purse
  advance_all-SpentOnce events t new h = advance_all-SpentOnceSince 0 id f events t new h

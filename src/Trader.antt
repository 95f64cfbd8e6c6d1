-- ===== src/Trader.antt =====
-- src/trader.rs: the trader, which owns the purse and the actors of its trades, and what they do side
-- by side. The maps of accessors have the same keys as those of the actors and are left out.
pub mod Types
pub mod Directory
pub mod Restore
pub mod Construction
pub mod Recovery
pub mod Saved
pub mod Restart
pub mod Detached
pub mod Startup
pub mod Lifetimes
pub mod Shutdown
pub mod Stopped
pub mod Closed
pub mod Queries
pub mod Listing
pub mod Safety
pub mod Withdrawal
pub mod Samples
mod Tests
use fatcrab_trading.Base.{
  ℕ, ⊤, Bool, true, false, not, String, Option, none, some, List, [], ◌∷◌, ltb, ◌&&◌, if◌then◌else◌,
}
use fatcrab_trading.Base.Dict.{Uuid, Dict, get, insert}
use fatcrab_trading.Action.{
  Action, Outcome, ret, raise, panic, pure, fail, ◌>>=◌, ◌>>◌, modify, throw_if, final,
}
use fatcrab_trading.Error.{simple, insufficient_confirmed_balance}
use fatcrab_trading.Common.{Address, Txid, Float}
use fatcrab_trading.N3xb.{N3xbOrder, N3xbOffer}
use fatcrab_trading.Order.{
  FatCrabOrder, FatCrabOrderEnvelope, FatCrabOrderType, order_type_eq, into,
}
use fatcrab_trading.Offer.{create_n3xb_offer}
use fatcrab_trading.Purse.{Purse, Bdk, get_balances, allocate_funds, send_funds}
use fatcrab_trading.Purse.Actor.{PurseRequest, handle}
use fatcrab_trading.Access.{is_panic}
use fatcrab_trading.Maker
use fatcrab_trading.Maker.Types.{MakerEnv, MakerEvent, MakerEffect, FatCrabMakerRequest}
use fatcrab_trading.Taker
use fatcrab_trading.Taker.Types.{TakerEnv, TakerEvent, TakerEffect, FatCrabTakerRequest}
use Types.{TraderEvent}

-- An actor with its log, whether its task still runs, and whether it ended by a panic.
pub record Task (T E : Type 0) : Type 0 where
  pub self : T
  pub out : List E
  pub is_running : Bool
  pub has_panicked : Bool

pub record FatCrabTrader : Type 0 where
  pub purse : Purse
  pub makers : Dict (Task Maker.FatCrabMakerActor MakerEffect)
  pub takers : Dict (Task Taker.FatCrabTakerActor TakerEffect)

abbrev pub spawn : {T E : Type 0} → T → Task T E
spawn actor = record { self = actor; out = []; is_running = true; has_panicked = false }

-- A request to the purse's actor.
abbrev pub ask_purse : {A : Type 0} → Action Purse A → Action FatCrabTrader A
ask_purse m t = elim (m t.purse) [
  | ret a p ↦ ret a (record t { purse = p })
  | raise e p ↦ raise e (record t { purse = p })
  | panic p ↦ panic (record t { purse = p })
]

-- `assert_eq!` on the type of an order.
abbrev pub assert_type : FatCrabOrder → FatCrabOrderType → Action FatCrabTrader ⊤
assert_type order order_type = if order_type_eq order.order_type order_type then pure tt else fail

-- The three requests are answered by the wallet one after the other.
unfoldable pub wallet_send_to_address : Bdk → Bdk → Bdk → Address → ℕ → Action FatCrabTrader Txid
wallet_send_to_address w w' w'' address sats = do
  balance ← ask_purse (get_balances w)
  throw_if (ltb balance.confirmed sats) (simple insufficient_confirmed_balance)
  funds_id ← ask_purse (allocate_funds w' sats)
  ask_purse (send_funds w'' funds_id address)

insert_maker : Uuid → Maker.FatCrabMakerActor → Action FatCrabTrader ⊤
insert_maker uuid actor = modify (λ t. record t { makers = insert uuid (spawn actor) t.makers })

insert_taker : Uuid → Taker.FatCrabTakerActor → Action FatCrabTrader ⊤
insert_taker uuid actor = modify (λ t. record t { takers = insert uuid (spawn actor) t.takers })

module _ (f : Float) where
  unfoldable pub new_buy_maker : MakerEnv → FatCrabOrder → String → Action FatCrabTrader ⊤
  unfolding insert_maker
  new_buy_maker env order fatcrab_rx_addr = do
    assert_type order FatCrabOrderType.buy
    n3xb_order ← into f order
    actor ← ask_purse (Maker.actor_new f env order (some fatcrab_rx_addr))
    insert_maker order.trade_uuid actor

  unfoldable pub new_sell_maker : MakerEnv → FatCrabOrder → Action FatCrabTrader ⊤
  unfolding insert_maker
  new_sell_maker env order = do
    assert_type order FatCrabOrderType.sell
    n3xb_order ← into f order
    actor ← ask_purse (Maker.actor_new f env order none)
    insert_maker order.trade_uuid actor

  -- The n3xb manager, whose answer is `unwrap`ped, is taken to give a taker.
  unfoldable pub new_buy_taker : TakerEnv → FatCrabOrderEnvelope → Action FatCrabTrader ⊤
  unfolding insert_taker
  new_buy_taker env order_envelope = do
    let order = order_envelope.order
    assert_type order FatCrabOrderType.buy
    n3xb_offer ← create_n3xb_offer f order
    actor ← ask_purse (Taker.actor_new f env order_envelope none)
    insert_taker order.trade_uuid actor

  unfoldable pub new_sell_taker : TakerEnv → FatCrabOrderEnvelope → String → Action FatCrabTrader ⊤
  unfolding insert_taker
  new_sell_taker env order_envelope fatcrab_rx_addr = do
    let order = order_envelope.order
    assert_type order FatCrabOrderType.sell
    n3xb_offer ← create_n3xb_offer f order
    actor ← ask_purse (Taker.actor_new f env order_envelope (some fatcrab_rx_addr))
    insert_taker order.trade_uuid actor

abbrev maker_goes_on : MakerEvent → Outcome Maker.World ⊤ → Bool
maker_goes_on (MakerEvent.request FatCrabMakerRequest.shutdown) o = false
maker_goes_on e (panic c) = false
maker_goes_on e o = true

abbrev taker_goes_on : TakerEvent → Outcome Taker.World ⊤ → Bool
taker_goes_on (TakerEvent.request FatCrabTakerRequest.shutdown) o = false
taker_goes_on e (panic c) = false
taker_goes_on e o = true

keep_maker : Uuid → Bool → Bool → Maker.World → FatCrabTrader → FatCrabTrader
keep_maker uuid is_running has_panicked c t = record t {
  purse = c.purse;
  makers =
      insert uuid
        (record {
          self = c.self;
          out = c.out;
          is_running = is_running;
          has_panicked = has_panicked;
        })
        t.makers;
}

keep_taker : Uuid → Bool → Bool → Taker.World → FatCrabTrader → FatCrabTrader
keep_taker uuid is_running has_panicked c t = record t {
  purse = c.purse;
  takers =
      insert uuid
        (record {
          self = c.self;
          out = c.out;
          is_running = is_running;
          has_panicked = has_panicked;
        })
        t.takers;
}

-- One round of a maker's loop, in its own task: its panic ends it and not the trader.
unfoldable pub maker_round : MakerEnv → Uuid → MakerEvent → FatCrabTrader → FatCrabTrader
unfolding keep_maker
maker_round env uuid e t = elim (get uuid t.makers) [
  | none ↦ t
  | some task ↦
      let o =
        Maker.Run.handle_event env e
          (record { self = task.self; purse = t.purse; out = task.out }) in
      if task.is_running then keep_maker uuid (maker_goes_on e o) (is_panic o) (final o) t else t
]

unfoldable pub taker_round : TakerEnv → Uuid → TakerEvent → FatCrabTrader → FatCrabTrader
unfolding keep_taker
taker_round env uuid e t = elim (get uuid t.takers) [
  | none ↦ t
  | some task ↦
      let o =
        Taker.Run.handle_event env e
          (record { self = task.self; purse = t.purse; out = task.out }) in
      if task.is_running then keep_taker uuid (taker_goes_on e o) (is_panic o) (final o) t else t
]

-- A caller sees an error or a panic of its call; the actors go on from the state that it leaves.
unfoldable pub advance : Float → TraderEvent → FatCrabTrader → FatCrabTrader
advance f (TraderEvent.wallet w r) t = final (ask_purse (handle w r) t)
advance f (TraderEvent.wallet_send_to_address w w' w'' address sats) t =
    final (wallet_send_to_address w w' w'' address sats t)
advance f (TraderEvent.new_buy_maker env order addr) t = final (new_buy_maker f env order addr t)
advance f (TraderEvent.new_sell_maker env order) t = final (new_sell_maker f env order t)
advance f (TraderEvent.new_buy_taker env order) t = final (new_buy_taker f env order t)
advance f (TraderEvent.new_sell_taker env order addr) t = final (new_sell_taker f env order addr t)
advance f (TraderEvent.maker env uuid e) t = maker_round env uuid e t
advance f (TraderEvent.taker env uuid e) t = taker_round env uuid e t

-- An interleaving of the trader's calls with the actors of all its trades.
unfoldable pub advance_all : Float → List TraderEvent → FatCrabTrader → FatCrabTrader
advance_all f [] t = t
advance_all f (e ∷ events) t = advance_all f events (advance f e t)

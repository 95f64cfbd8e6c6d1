-- ===== src/Trader/Shutdown.antt =====
-- src/trader.rs: `shutdown`. It ends the purse's actor first, then the actors of all trades, and then
-- waits for their tasks. The trader is consumed; its maps are kept here to show how its tasks ended.
use fatcrab_trading.Base.{⊤, Bool, Option, [], ◌∷◌}
use fatcrab_trading.Base.Dict.{Uuid, Dict}
use fatcrab_trading.Purse.{Bdk}
use fatcrab_trading.Purse.Access
use fatcrab_trading.Purse.Access.{serves}
use fatcrab_trading.Action.{
  Action, ret, raise, panic, pure, ◌>>=◌, ◌>>◌, gets, modify, throw_if, no_error,
}
use fatcrab_trading.Error.{ExternalError, join_error}
use fatcrab_trading.Maker.Types.{MakerEnv, MakerEvent, FatCrabMakerRequest}
use fatcrab_trading.Taker.Types.{TakerEnv, TakerEvent, FatCrabTakerRequest}
use fatcrab_trading.Trader.{FatCrabTrader, Task, maker_round, taker_round}

-- What the actors and the n3xb manager get from outside while they shut down; whether the purse's task still
-- runs, which ends before only by a panic; and what waiting for its end gives.
pub record Ending : Type 0 where
  pub purse_is_running : Bool
  pub wallet : Bdk
  pub purse_join : Option ExternalError
  pub maker_env : Uuid → MakerEnv
  pub taker_env : Uuid → TakerEnv
  pub n3xb_shutdown : Option ExternalError

-- `maker_accessor.shutdown()` for each accessor. An error is only logged: that of the n3xb maker, or
-- the one of a task that has ended already, where the call does nothing.
unfoldable pub stop_makers : {V : Type 0} → Ending → Dict V → FatCrabTrader → FatCrabTrader
stop_makers env [] t = t
stop_makers env ((uuid, v) ∷ d) t =
    stop_makers env d
      (maker_round (env.maker_env uuid) uuid (MakerEvent.request FatCrabMakerRequest.shutdown) t)

unfoldable pub stop_takers : {V : Type 0} → Ending → Dict V → FatCrabTrader → FatCrabTrader
stop_takers env [] t = t
stop_takers env ((uuid, v) ∷ d) t =
    stop_takers env d
      (taker_round (env.taker_env uuid) uuid (TakerEvent.request FatCrabTakerRequest.shutdown) t)

-- `await_task_handle` of each task: the first that has panicked is the error.
unfoldable pub await_tasks : {T E : Type 0} → Dict (Task T E) → Action FatCrabTrader ⊤
await_tasks [] = pure tt
await_tasks ((uuid, task) ∷ d) = do throw_if task.has_panicked (join_error "panic"); await_tasks d

-- `purse_accessor.shutdown()`: an error would only be logged, but where the purse's task has ended, its
-- `unwrap`s panic. Then the task is waited for.
unfoldable pub stop_purse : Ending → Action FatCrabTrader ⊤
unfolding Access.shutdown
stop_purse env t = elim (Access.shutdown env.wallet (serves env.purse_is_running t.purse)) [
  | ret x s ↦ no_error env.purse_join join_error (record t { purse = s.purse })
  | raise e s ↦ no_error env.purse_join join_error (record t { purse = s.purse })
  | panic s ↦ panic (record t { purse = s.purse })
]

unfoldable pub shutdown : Ending → Action FatCrabTrader ⊤
unfolding stop_purse stop_makers stop_takers await_tasks
shutdown env = do
  stop_purse env
  maker_accessors ← gets (λ t. t.makers)
  modify (stop_makers env maker_accessors)
  taker_accessors ← gets (λ t. t.takers)
  modify (stop_takers env taker_accessors)
  makers ← gets (λ t. t.makers)
  await_tasks makers
  takers ← gets (λ t. t.takers)
  await_tasks takers
  no_error env.n3xb_shutdown join_error

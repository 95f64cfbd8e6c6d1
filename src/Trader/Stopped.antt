-- ===== src/Trader/Stopped.antt =====
-- What a shutdown of the trader leaves.
use fatcrab_trading.Base.{
  Bool, true, false, not, Option, none, some, [], ◌∷◌, ◌≡◌, ◌∙◌, ◌≢◌, ◌||◌, ◌&&◌, if◌then◌else◌,
  is_some, refl, arith, inl, inr, Option-cases,
}
use fatcrab_trading.Base.Dict.{Uuid, Dict, get, get-insert}
use fatcrab_trading.Action.{ret, raise, final}
use fatcrab_trading.Error.{join_error}
use fatcrab_trading.Access.{is_panic}
use fatcrab_trading.Maker
use fatcrab_trading.Taker
use fatcrab_trading.Maker.Types.{MakerEnv, MakerEvent, FatCrabMakerRequest}
use fatcrab_trading.Taker.Types.{TakerEnv, TakerEvent, FatCrabTakerRequest}
use fatcrab_trading.Trader.{FatCrabTrader, Task, maker_round, taker_round}
use fatcrab_trading.Trader.Shutdown.{Ending, stop_makers, stop_takers, await_tasks}

abbrev pub is_stopped : {T E : Type 0} → Option (Task T E) → Bool
is_stopped none = true
is_stopped (some task) = not task.is_running

abbrev pub stop_maker : MakerEvent
stop_maker = MakerEvent.request FatCrabMakerRequest.shutdown

abbrev pub stop_taker : TakerEvent
stop_taker = TakerEvent.request FatCrabTakerRequest.shutdown

module _ (j : Uuid) where
  abbrev pub HasNoMaker : FatCrabTrader → Type 0
  HasNoMaker t = is_stopped (get j t.makers) ≡ true

  abbrev pub HasNoTaker : FatCrabTrader → Type 0
  HasNoTaker t = is_stopped (get j t.takers) ≡ true

  maker_round-HasNoMaker :
      (env : MakerEnv) (k : Uuid) (t : FatCrabTrader)
      → (j ≢ k → HasNoMaker t)
      → HasNoMaker (maker_round env k (stop_maker) t)
  unfolding maker_round
  maker_round-HasNoMaker env k t h = elim (Option-cases (get k t.makers)) [
    | inl n ↦ ground arith
    | inr (task, n) ↦
        let o =
          Maker.Run.handle_event env stop_maker
            (record { self = task.self; purse = t.purse; out = task.out }) in
        ground (
          arith,
          get-insert j k
              (record {
                self = (final o).self;
                out = (final o).out;
                is_running = false;
                has_panicked = is_panic o;
              })
              t.makers,
        )
  ]

  pub stop_makers-HasNoMaker :
      {V : Type 0} (env : Ending) (d : Dict V) (t : FatCrabTrader)
      → (get j d ≡ none → HasNoMaker t)
      → HasNoMaker (stop_makers env d t)
  unfolding stop_makers
  stop_makers-HasNoMaker env [] t h = h refl
  stop_makers-HasNoMaker env ((k, v) ∷ d) t h =
      stop_makers-HasNoMaker env d (maker_round (env.maker_env k) k stop_maker t)
        (λ n. maker_round-HasNoMaker (env.maker_env k) k t (λ other. ground (arith, h)))

  taker_round-HasNoTaker :
      (env : TakerEnv) (k : Uuid) (t : FatCrabTrader)
      → (j ≢ k → HasNoTaker t)
      → HasNoTaker (taker_round env k (stop_taker) t)
  unfolding taker_round
  taker_round-HasNoTaker env k t h = elim (Option-cases (get k t.takers)) [
    | inl n ↦ ground arith
    | inr (task, n) ↦
        let o =
          Taker.Run.handle_event env stop_taker
            (record { self = task.self; purse = t.purse; out = task.out }) in
        ground (
          arith,
          get-insert j k
              (record {
                self = (final o).self;
                out = (final o).out;
                is_running = false;
                has_panicked = is_panic o;
              })
              t.takers,
        )
  ]

  pub stop_takers-HasNoTaker :
      {V : Type 0} (env : Ending) (d : Dict V) (t : FatCrabTrader)
      → (get j d ≡ none → HasNoTaker t)
      → HasNoTaker (stop_takers env d t)
  unfolding stop_takers
  stop_takers-HasNoTaker env [] t h = h refl
  stop_takers-HasNoTaker env ((k, v) ∷ d) t h =
      stop_takers-HasNoTaker env d (taker_round (env.taker_env k) k stop_taker t)
        (λ n. taker_round-HasNoTaker (env.taker_env k) k t (λ other. ground (arith, h)))

pub maker_round_takers :
    (env : MakerEnv) (k : Uuid) (e : MakerEvent) (t : FatCrabTrader)
    → (maker_round env k e t).takers ≡ t.takers
unfolding maker_round
maker_round_takers env k e t = elim (Option-cases (get k t.makers)) [
  | inl n ↦ ground arith
  | inr (task, n) ↦ ground arith
]

taker_round_makers :
    (env : TakerEnv) (k : Uuid) (e : TakerEvent) (t : FatCrabTrader)
    → (taker_round env k e t).makers ≡ t.makers
unfolding taker_round
taker_round_makers env k e t = elim (Option-cases (get k t.takers)) [
  | inl n ↦ ground arith
  | inr (task, n) ↦ ground arith
]

pub stop_takers_makers :
    {V : Type 0} (env : Ending) (d : Dict V) (t : FatCrabTrader)
    → (stop_takers env d t).makers ≡ t.makers
unfolding stop_takers
stop_takers_makers env [] t = refl
stop_takers_makers env ((k, v) ∷ d) t =
    stop_takers_makers env d (taker_round (env.taker_env k) k stop_taker t)
    ∙ taker_round_makers (env.taker_env k) k stop_taker t

abbrev pub has_panic : {T E : Type 0} → Dict (Task T E) → Bool
has_panic [] = false
has_panic ((uuid, task) ∷ d) = task.has_panicked || has_panic d

pub await_tasks-has_panic :
    {T E : Type 0} (d : Dict (Task T E)) (t : FatCrabTrader)
    → await_tasks d t ≡ (if has_panic d then raise (join_error "panic") t else ret tt t)
unfolding await_tasks
await_tasks-has_panic [] t = refl
await_tasks-has_panic ((uuid, task) ∷ d) t = ground (arith, await_tasks-has_panic d t)

abbrev pub is_clean : Ending → FatCrabTrader → Bool
is_clean env t =
    not (has_panic t.makers) && not (has_panic t.takers) && not (is_some env.n3xb_shutdown)

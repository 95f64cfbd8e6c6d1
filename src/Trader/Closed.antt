-- ===== src/Trader/Closed.antt =====
-- What a shutdown of the trader does to each of its trades.
use fatcrab_trading.Base.{
  ⊤, Bool, true, false, Option, none, some, List, [], ◌∷◌, ◌≡◌, ◌∙◌, ◌⊎◌, refl, arith, inl, inr,
  Option-cases, not, is_some, ◌&&◌, if◌then◌else◌,
}
use fatcrab_trading.Base.Dict.{Uuid, Dict, get, get-insert}
use fatcrab_trading.Action.{Outcome, ret, raise, panic, final, no_error}
use fatcrab_trading.Access.{is_panic}
use fatcrab_trading.Error.{join_error}
use fatcrab_trading.Purse.Access
use fatcrab_trading.Purse.Actor.{handle}
use fatcrab_trading.Maker
use fatcrab_trading.Taker
use fatcrab_trading.Maker.Types.{MakerEnv, MakerEffect}
use fatcrab_trading.Taker.Types.{TakerEnv, TakerEffect}
use fatcrab_trading.Trader.{FatCrabTrader, Task, maker_round, taker_round}
use fatcrab_trading.Trader.Shutdown.{Ending, stop_purse, stop_makers, stop_takers, shutdown}
use fatcrab_trading.Trader.Stopped.{
  stop_maker, stop_taker, is_stopped, stop_makers-HasNoMaker, stop_takers-HasNoTaker,
  stop_takers_makers, maker_round_takers, await_tasks-has_panic, is_clean,
}

-- The persister of the trade's data was terminated.
abbrev pub maker_closed : List MakerEffect → Bool
maker_closed [] = false
maker_closed (MakerEffect.terminate ∷ out) = true
maker_closed (_ ∷ out) = maker_closed out

abbrev pub taker_closed : List TakerEffect → Bool
taker_closed [] = false
taker_closed (TakerEffect.terminate ∷ out) = true
taker_closed (_ ∷ out) = taker_closed out

module _ {T E : Type 0} (closed : List E → Bool) where
  -- The same data, and either nothing happened to the task, or its persister was terminated.
  abbrev pub Ended : Option (Task T E) → Option (Task T E) → Type 0
  Ended none none = ⊤
  Ended (some a) (some b) = (b.self ≡ a.self) × ((b ≡ a) ⊎ (closed b.out ≡ true))
  Ended _ _ = ⊥

  Ended-refl : (o : Option (Task T E)) → Ended o o
  Ended-refl none = tt
  Ended-refl (some a) = (refl, inl refl)

  Ended-trans : (o p q : Option (Task T E)) → Ended o p → Ended p q → Ended o q
  Ended-trans none none none h g = tt
  Ended-trans none none (some c) h g = absurd g
  Ended-trans none (some b) q h g = absurd h
  Ended-trans (some a) none q h g = absurd h
  Ended-trans (some a) (some b) none h g = absurd g
  Ended-trans (some a) (some b) (some c) h g = ground arith

maker_round-Ended :
    (env : MakerEnv) (j k : Uuid) (t : FatCrabTrader)
    → Ended maker_closed (get j t.makers) (get j (maker_round env k stop_maker t).makers)
unfolding maker_round Maker.Run.handle_event Maker.Run.handle_request Maker.Run.shut_down
maker_round-Ended env j k t = elim (Option-cases (get k t.makers)) [
  | inl n ↦ ground (arith, Ended-refl maker_closed (get j t.makers))
  | inr (task, n) ↦
      let o =
        Maker.Run.handle_event env stop_maker
          (record { self = task.self; purse = t.purse; out = task.out }) in
      ground (
        arith,
        Ended-refl maker_closed (get j t.makers),
        get-insert j k
            (record {
              self = (final o).self;
              out = (final o).out;
              is_running = false;
              has_panicked = is_panic o;
            })
            t.makers,
      )
]

taker_round-Ended :
    (env : TakerEnv) (j k : Uuid) (t : FatCrabTrader)
    → Ended taker_closed (get j t.takers) (get j (taker_round env k stop_taker t).takers)
unfolding taker_round Taker.Run.handle_event Taker.Run.handle_request Taker.Run.shut_down
taker_round-Ended env j k t = elim (Option-cases (get k t.takers)) [
  | inl n ↦ ground (arith, Ended-refl taker_closed (get j t.takers))
  | inr (task, n) ↦
      let o =
        Taker.Run.handle_event env stop_taker
          (record { self = task.self; purse = t.purse; out = task.out }) in
      ground (
        arith,
        Ended-refl taker_closed (get j t.takers),
        get-insert j k
            (record {
              self = (final o).self;
              out = (final o).out;
              is_running = false;
              has_panicked = is_panic o;
            })
            t.takers,
      )
]

stop_makers-Ended :
    {V : Type 0} (env : Ending) (j : Uuid) (d : Dict V) (t : FatCrabTrader)
    → Ended maker_closed (get j t.makers) (get j (stop_makers env d t).makers)
unfolding stop_makers
stop_makers-Ended env j [] t = Ended-refl maker_closed (get j t.makers)
stop_makers-Ended env j ((k, v) ∷ d) t =
    let t' = maker_round (env.maker_env k) k stop_maker t in
    Ended-trans maker_closed (get j t.makers) (get j t'.makers)
      (get j (stop_makers env d t').makers) (maker_round-Ended (env.maker_env k) j k t)
      (stop_makers-Ended env j d t')

maker_round_purse :
    (env : MakerEnv) (k : Uuid) (t : FatCrabTrader)
    → (maker_round env k stop_maker t).purse ≡ t.purse
unfolding maker_round Maker.Run.handle_event Maker.Run.handle_request Maker.Run.shut_down
maker_round_purse env k t = elim (Option-cases (get k t.makers)) [
  | inl n ↦ ground arith
  | inr (task, n) ↦ ground arith
]

stop_makers_purse :
    {V : Type 0} (env : Ending) (d : Dict V) (t : FatCrabTrader)
    → (stop_makers env d t).purse ≡ t.purse
unfolding stop_makers
stop_makers_purse env [] t = refl
stop_makers_purse env ((k, v) ∷ d) t =
    stop_makers_purse env d (maker_round (env.maker_env k) k stop_maker t)
    ∙ maker_round_purse (env.maker_env k) k t

stop_takers-Ended :
    {V : Type 0} (env : Ending) (j : Uuid) (d : Dict V) (t : FatCrabTrader)
    → Ended taker_closed (get j t.takers) (get j (stop_takers env d t).takers)
unfolding stop_takers
stop_takers-Ended env j [] t = Ended-refl taker_closed (get j t.takers)
stop_takers-Ended env j ((k, v) ∷ d) t =
    let t' = taker_round (env.taker_env k) k stop_taker t in
    Ended-trans taker_closed (get j t.takers) (get j t'.takers)
      (get j (stop_takers env d t').takers) (taker_round-Ended (env.taker_env k) j k t)
      (stop_takers-Ended env j d t')

taker_round_purse :
    (env : TakerEnv) (k : Uuid) (t : FatCrabTrader)
    → (taker_round env k stop_taker t).purse ≡ t.purse
unfolding taker_round Taker.Run.handle_event Taker.Run.handle_request Taker.Run.shut_down
taker_round_purse env k t = elim (Option-cases (get k t.takers)) [
  | inl n ↦ ground arith
  | inr (task, n) ↦ ground arith
]

stop_takers_purse :
    {V : Type 0} (env : Ending) (d : Dict V) (t : FatCrabTrader)
    → (stop_takers env d t).purse ≡ t.purse
unfolding stop_takers
stop_takers_purse env [] t = refl
stop_takers_purse env ((k, v) ∷ d) t =
    stop_takers_purse env d (taker_round (env.taker_env k) k stop_taker t)
    ∙ taker_round_purse (env.taker_env k) k t

stop_makers_takers :
    {V : Type 0} (env : Ending) (d : Dict V) (t : FatCrabTrader)
    → (stop_makers env d t).takers ≡ t.takers
unfolding stop_makers
stop_makers_takers env [] t = refl
stop_makers_takers env ((k, v) ∷ d) t =
    stop_makers_takers env d (maker_round (env.maker_env k) k stop_maker t)
    ∙ maker_round_takers (env.maker_env k) k stop_maker t

-- A trade before and after: its data are the same, it does not run, and if it ran before, its persister
-- was terminated.
module _ {T E : Type 0} (closed : List E → Bool) where
  abbrev pub IsClosed : Option (Task T E) → Option (Task T E) → Type 0
  IsClosed none none = ⊤
  IsClosed (some a) (some b) =
      (b.self ≡ a.self) × (b.is_running ≡ false) × ((a.is_running ≡ false) ⊎ (closed b.out ≡ true))
  IsClosed _ _ = ⊥

  closes : (o p : Option (Task T E)) → Ended closed o p → is_stopped p ≡ true → IsClosed o p
  closes none none h s = tt
  closes none (some b) h s = absurd h
  closes (some a) none h s = absurd h
  closes (some a) (some b) h s = ground arith

abbrev pub AreClosed : Uuid → FatCrabTrader → FatCrabTrader → Type 0
AreClosed j t t' =
    IsClosed maker_closed (get j t.makers) (get j t'.makers)
    × IsClosed taker_closed (get j t.takers) (get j t'.takers)
    × (t'.purse ≡ t.purse)

-- The purse's task could be ended and waited for.
abbrev pub purse_ends : Ending → Bool
purse_ends env = env.purse_is_running && not (is_some env.purse_join)

abbrev pub Closes : Ending → Uuid → FatCrabTrader → Outcome FatCrabTrader ⊤ → Type 0
Closes env j t (ret x t') = AreClosed j t t' × (purse_ends env ≡ true) × (is_clean env t' ≡ true)
Closes env j t (raise e t') =
    (AreClosed j t t' × (purse_ends env ≡ true) × (is_clean env t' ≡ false))
    ⊎ ((t' ≡ t) × (env.purse_is_running ≡ true) × (is_some env.purse_join ≡ true))
Closes env j t (panic t') = (t' ≡ t) × (env.purse_is_running ≡ false)

stop_purse_lem :
    (env : Ending) (t : FatCrabTrader)
    → stop_purse env t
      ≡ (if env.purse_is_running then no_error env.purse_join join_error t else panic t)
unfolding stop_purse Access.ask Access.shutdown handle
stop_purse_lem env t = ground arith

-- A shutdown comes to its end, whatever the actors and the n3xb crate answer while they shut down, and
-- whichever trades have ended before. If the purse's task runs and can be waited for, then after the
-- shutdown no trade runs; each trade has the data that it had, the persister of each that ran before was
-- terminated, and the purse's data are the same. It then returns without an error exactly if no trade has
-- ended by a panic and the n3xb manager shuts down too. But if the purse's task has ended before, the
-- shutdown panics at once, and if the task cannot be waited for, it is an error at once: in both cases
-- nothing happens to any trade, and those that run go on running.
pub shutdown-Closes :
    (env : Ending) (j : Uuid) (t : FatCrabTrader) → Closes env j t (shutdown env t)
unfolding shutdown
shutdown-Closes env j t =
    let t' = stop_makers env t.makers t in
    let t'' = stop_takers env t'.takers t' in
    ground (
      arith,
      stop_purse_lem env t,
      closes maker_closed (get j t.makers) (get j t'.makers) (stop_makers-Ended env j t.makers t)
          (stop_makers-HasNoMaker j env t.makers t (λ n. ground arith)),
      closes taker_closed (get j t'.takers) (get j t''.takers)
          (stop_takers-Ended env j t'.takers t')
          (stop_takers-HasNoTaker j env t'.takers t' (λ n. ground arith)),
      stop_takers_makers env t'.takers t',
      stop_makers_takers env t.makers t,
      stop_makers_purse env t.makers t,
      stop_takers_purse env t'.takers t',
      await_tasks-has_panic t''.makers t'',
      await_tasks-has_panic t''.takers t'',
    )

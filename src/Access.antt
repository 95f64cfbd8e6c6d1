-- ===== src/Access.antt =====
-- What the accessors of src/maker/maker.rs, src/taker/taker.rs and src/purse/purse.rs have in common: a
-- call sends a request into the channel of the actor's task and waits for the reply. What the task
-- does between the two is the handling of this request: others that it serves before are earlier
-- calls.
use fatcrab_trading.Base.{⊤, Bool, true, false, not, ◌&&◌, List, [], ◌++◌, if◌then◌else◌}
use fatcrab_trading.Action.{Action, Outcome, ret, raise, panic, final, throw}
use fatcrab_trading.Error.{mpsc_send}
use fatcrab_trading.Actor.{Ctx}

-- `is_running` is false once the task has ended, and its receiver is gone.
pub record Server (W : Type 0) : Type 0 where
  pub world : W
  pub is_running : Bool

abbrev pub is_panic : {S A : Type 0} → Outcome S A → Bool
is_panic (ret a s) = false
is_panic (raise e s) = false
is_panic (panic s) = true

module _ {T E : Type 0} where
  -- What the task did for the request, put on top of its log.
  served : Bool → List E → Outcome (Ctx T E) ⊤ → Outcome (Server (Ctx T E)) (List E)
  served ends old o =
      let c = final o in
      ret c.out (record {
        world = record c { out = c.out ++ old };
        is_running = not ends && not (is_panic o);
      })

  -- `tx.send(..).await?`. `ends`: the task ends after the request.
  unfoldable pub send : Bool → Action (Ctx T E) ⊤ → Action (Server (Ctx T E)) (List E)
  unfolding served
  send ends handler s =
      if s.is_running
      then served ends s.world.out (handler (record s.world { out = [] }))
      else throw (mpsc_send "channel closed") s

-- ===== src/Persist/Tokio.antt =====
-- src/persist/tokio.rs: the persister as a tokio task, over the same message and the same states. It
-- differs from the thread of std.rs in that a store without a text panics the task, which ends it, and that
-- `terminate` panics where the task has panicked.
use fatcrab_trading.Base.{Bool, true, false, String, Option, none, some, ◌≡◌, arith}
use fatcrab_trading.Action.{ok, err, Fallible}
use fatcrab_trading.Error.{ExternalError, io}
use fatcrab_trading.Persist
use fatcrab_trading.Persist.{try_send, send_close, drop, recv, persist}
use fatcrab_trading.Persist.Types.{Persister, Phase, receiving, exited, Json, Label}

-- `has_panicked`: the task has ended by a panic.
pub record TokioPersister (Store : Type 0) : Type 0 where
  pub persister : Persister Store
  pub has_panicked : Bool

-- What `persist` comes to: `none` is the panic of `to_string().unwrap()`.
unfoldable pub persist_async :
    {Store : Type 0} → Json Store → Option ExternalError → Store → Option (Fallible String)
persist_async json written store = elim (json.to_string store) [
  | err e ↦ none
  | ok text ↦ some (elim written [ none ↦ ok text | some e ↦ err (io e) ])
]

module _ {Store : Type 0} where
  abbrev pub running : Persister Store → TokioPersister Store
  running p = record { persister = p; has_panicked = false }

  -- The write is awaited under the lock: an error is logged, a panic ends the task, and closes the channel.
  after_persist : Option String → Option (Fallible String) → Persister Store → TokioPersister Store
  after_persist left (some (ok text)) p =
      running (record p { file = some text; phase = receiving; has_failed = false })
  after_persist left (some (err e)) p =
      running (record p { file = left; phase = receiving; has_failed = true })
  after_persist left none p = record {
    persister = record p { phase = exited; has_failed = true };
    has_panicked = true;
  }

  abbrev pub lifted : Option (Persister Store) → Option (TokioPersister Store)
  lifted none = none
  lifted (some p) = some (running p)

  save_async :
      Json Store
      → Option ExternalError
      → Option String
      → Persister Store
      → Option (TokioPersister Store)
  unfolding persist_async after_persist
  save_async json written left p = elim p.phase [
    | Phase.receiving ↦ none
    | Phase.saving ↦ some (after_persist left (persist_async json written p.store) p)
    | Phase.exited ↦ none
  ]

  -- A step of the owner and the task, where it can be taken.
  step_running : Json Store → Label Store → Persister Store → Option (TokioPersister Store)
  unfolding save_async try_send send_close recv
  step_running json Label.recv p = lifted (recv p)
  step_running json (Label.save written left) p = save_async json written left p
  step_running json (Label.write f) p = elim p.is_closed [
    | true ↦ none
    | false ↦ some (running (record p { store = f p.store; is_queued = false }))
  ]
  step_running json Label.queue p = elim p.is_closed [
    | true ↦ none
    | false ↦ some (running (try_send p))
  ]
  step_running json Label.send_close p = elim p.is_closed [
    | true ↦ none
    | false ↦ lifted (send_close p)
  ]
  step_running json Label.drop p = elim p.is_closed [
    | true ↦ none
    | false ↦ some (running (drop p))
  ]

  -- After a panic of the task its channel is closed. The owner goes on: a queued message is refused, which
  -- is logged. The `unwrap`ped send of `terminate` panics, so that it is no step.
  step_panicked : Label Store → Persister Store → Option (TokioPersister Store)
  unfolding try_send
  step_panicked (Label.write f) p = some (record {
    persister = record p { store = f p.store; is_queued = false };
    has_panicked = true;
  })
  step_panicked Label.queue p = some (record { persister = try_send p; has_panicked = true })
  step_panicked Label.drop p = some (record { persister = drop p; has_panicked = true })
  step_panicked _ p = none

  unfoldable pub step :
      Json Store → Label Store → TokioPersister Store → Option (TokioPersister Store)
  unfolding step_running step_panicked
  step json l t = elim t.has_panicked [
    | true ↦ step_panicked l t.persister
    | false ↦ step_running json l t.persister
  ]

  -- As long as the stores have a text, the tokio persister can take the same steps as that of std.rs, and they
  -- lead to the same states: in every state, for the owner and for the task, whatever the file system
  -- answers.
  pub step-IsSame :
      (json : Json Store) (l : Label Store) (p : Persister Store) (text : String)
      → json.to_string p.store ≡ ok text
      → step json l (running p) ≡ lifted (Persist.step json l p)
  unfolding step Persist.step persist try_send send_close recv
  step-IsSame json Label.recv p text has = ground arith
  step-IsSame json (Label.save written left) p text has = ground arith
  step-IsSame json (Label.write f) p text has = ground arith
  step-IsSame json Label.queue p text has = ground arith
  step-IsSame json Label.send_close p text has = ground arith
  step-IsSame json Label.drop p text has = ground arith

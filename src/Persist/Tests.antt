-- ===== src/Persist/Tests.antt =====
-- The persister at a concrete store, a text whose JSON is itself.
use fatcrab_trading.Base.{◌≡◌, refl, String, none, some, true}
use fatcrab_trading.Action.{ok}
use fatcrab_trading.Persist.Types.{Persister, Phase, receiving, exited, Json, Label}
use fatcrab_trading.Persist.{
  step, Reachable, here, next, started, terminate, try_send, send_close, recv, persist,
}
use fatcrab_trading.Persist.Tokio
use fatcrab_trading.Persist.Tokio.{running, lifted, step-IsSame}
use fatcrab_trading.Persist
use fatcrab_trading.Persist.Durability.{IsDurable, exited-IsDurable, Restores, terminate-Restores}

abbrev json : Json String
json = record { to_string = λ s. ok s; from_str = λ s. ok s }

abbrev begun : Persister String
begun = started "old" none

abbrev changed : Persister String
changed = record begun { store = "new" }

abbrev waiting : Persister String
waiting = record changed { slot = some fatcrab_trading.Persist.Types.persist; is_queued = true }

abbrev taken : Persister String
taken = record waiting { slot = none; phase = fatcrab_trading.Persist.Types.saving }

abbrev written : Persister String
written = record taken { file = some "new"; phase = receiving }

abbrev closing : Persister String
closing = record written { slot = some fatcrab_trading.Persist.Types.close; is_closed = true }

abbrev ended : Persister String
ended = record closing { slot = none; phase = exited }

waiting-Reachable : Reachable json begun waiting
unfolding step try_send
waiting-Reachable =
    next {p = changed} Label.queue (next {p = begun} (Label.write (λ s. "new")) here refl) refl

ended-Reachable : Reachable json begun ended
unfolding step send_close recv persist
ended-Reachable =
    next {p = closing} Label.recv
      (next {p = written} Label.send_close
        (next {p = taken} (Label.save none none)
          (next {p = waiting} Label.recv waiting-Reachable refl) refl)
        refl)
      refl

exited-IsDurable_example : IsDurable json ended
exited-IsDurable_example = exited-IsDurable json "old" none ended ended-Reachable refl refl refl

terminate-Restores_example : Restores json "new" (terminate json waiting)
terminate-Restores_example =
    terminate-Restores json "old" none waiting "new" waiting-Reachable refl refl refl refl refl

abbrev saving_now : Label String
saving_now = Label.save (some "disk full") none

step-IsSame_example :
    Tokio.step json saving_now (running taken) ≡ lifted (Persist.step json saving_now taken)
step-IsSame_example = step-IsSame json saving_now taken "new" refl

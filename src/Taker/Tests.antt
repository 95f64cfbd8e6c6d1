-- ===== src/Taker/Tests.antt =====
-- The taker's theorems at concrete values.
use fatcrab_trading.Base.{true, refl, arith, none, some, List, [], ◌∷◌, inl}
use fatcrab_trading.Action.{final}
use fatcrab_trading.Samples.{
  float, order_envelope, purse, accepting, peer_envelope, taker_env, sell_taker_world,
}
use fatcrab_trading.Taker.Access.{TakerServer}
use fatcrab_trading.Taker.Answers.{AreAnswered, taker_accessor-AreAnswered}
use fatcrab_trading.Taker.{actor_new, World}
use fatcrab_trading.Taker.Types.{
  new, submitted_offer, TakerEnv, FatCrabTakerRequest, TakerNotif, TakerEvent,
}
use fatcrab_trading.Taker.Run.{handle_event, run}
use fatcrab_trading.Taker.Consistency.{IsConsistentWorld, taker_run-IsConsistent}
use fatcrab_trading.Taker.Machine.{Steps, state_in, taker_handle_event-Steps}
use fatcrab_trading.Taker.Construction.{Begins, taker_actor_new-Begins}
use fatcrab_trading.Purse.Invariant.{SpentOnce}

abbrev answer : TakerEvent
answer = TakerEvent.notification (TakerNotif.trade_rsp accepting)

abbrev waiting : World
waiting = sell_taker_world submitted_offer none

taker_handle_event-Steps_example :
    Steps answer submitted_offer (state_in (final (handle_event taker_env answer waiting)))
taker_handle_event-Steps_example = taker_handle_event-Steps taker_env answer waiting

-- A trade from the new offer to the peer's message.
abbrev trade : List (TakerEnv × TakerEvent)
trade =
    (taker_env, TakerEvent.request FatCrabTakerRequest.take_order)
    ∷ (taker_env, answer)
    ∷ (taker_env, TakerEvent.notification (TakerNotif.peer peer_envelope))
    ∷ []

abbrev starting : World
starting = sell_taker_world new none

starting-IsConsistent : IsConsistentWorld starting
starting-IsConsistent = ground arith

taker_run-IsConsistent_example : IsConsistentWorld (final (run trade starting))
taker_run-IsConsistent_example = taker_run-IsConsistent trade starting starting-IsConsistent

purse-SpentOnce : SpentOnce 8 purse
purse-SpentOnce = record { distinct = (refl, (refl, tt)); once = inl refl }

taker_actor_new-Begins_example :
    Begins 500 purse (actor_new float taker_env order_envelope (some "fatcrab-own") purse)
taker_actor_new-Begins_example =
    taker_actor_new-Begins float taker_env order_envelope (some "fatcrab-own") purse
      purse-SpentOnce.distinct refl

abbrev server : TakerServer
server = record { world = sell_taker_world submitted_offer none; is_running = true }

taker_accessor-AreAnswered_example : AreAnswered taker_env server
taker_accessor-AreAnswered_example = taker_accessor-AreAnswered taker_env server

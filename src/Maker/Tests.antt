-- ===== src/Maker/Tests.antt =====
-- The maker's theorems at concrete values.
use fatcrab_trading.Base.{◌≡◌, ◌≢◌, refl, arith, none, some, true, List, [], ◌∷◌, inl}
use fatcrab_trading.Base.Dict.{Uuid}
use fatcrab_trading.Action.{final}
use fatcrab_trading.Samples.{
  float, buy_order, purse, offer, offer_envelope, peer_envelope, maker_env, buy_maker,
  buy_maker_ctx, buy_maker_world, sell_order,
}
use fatcrab_trading.Offer.{validate_n3xb_offer}
use fatcrab_trading.TradeRsp.{accept}
use fatcrab_trading.Maker.Access.{MakerServer}
use fatcrab_trading.Maker.Answers.{AreAnswered, accessor-AreAnswered}
use fatcrab_trading.Maker.{actor_new, post_new_order, World, sell_actor}
use fatcrab_trading.Maker.Buy
use fatcrab_trading.Maker.Sell.{FatCrabMakerSellActor}
use fatcrab_trading.Maker.Types.{
  new, received_offer, accepted_offer, inbound_fc_notified, MakerEnv, FatCrabMakerRequest,
  MakerNotif, MakerEvent,
}
use fatcrab_trading.Maker.Notifications.{handle_offer_notif, handle_peer_notif}
use fatcrab_trading.Maker.Run.{handle_notif, handle_request, handle_event, run}
use fatcrab_trading.Maker.Release.{BuyCtx, buy_ctx, IsStored}
use fatcrab_trading.Maker.Consistency.{IsConsistentWorld, run-IsConsistent}
use fatcrab_trading.Maker.Machine.{
  Steps, state_in, handle_event-Steps, accepts, IsInbound, run-IsInbound,
}
use fatcrab_trading.Maker.Payment.{PaysOnly, handle_event-PaysOnly}
use fatcrab_trading.Maker.Isolation.{allocated, handle_event-Isolated}
use fatcrab_trading.Maker.Orders.{Cancels, cancel_order-Cancels}
use fatcrab_trading.Maker.Construction.{Begins, actor_new-Begins}
use fatcrab_trading.Maker.Retry.{IsUnchanged, release_notify_peer-Stuck}
use fatcrab_trading.Purse.{send_funds, finish_and_broadcast}
use fatcrab_trading.Purse.Invariant.{SpentOnce}

abbrev release : MakerEvent
release = MakerEvent.request (FatCrabMakerRequest.release_notify_peer none)

abbrev paying : World
paying = buy_maker_world inbound_fc_notified (some "bc1q-peer")

handle_event-PaysOnly_example :
    PaysOnly
      (IsStored maker_env (buy_ctx (buy_maker inbound_fc_notified (some "bc1q-peer")) paying))
      7
      purse
      (final (handle_event maker_env release paying)).purse
handle_event-PaysOnly_example =
    handle_event-PaysOnly maker_env release paying
      (buy_maker inbound_fc_notified (some "bc1q-peer")) refl

not_8 : ◌≢◌ {A = Uuid} 8 7
not_8 = ground arith

handle_event-Isolated_example :
    allocated 8 (final (handle_event maker_env release paying)).purse ≡ some 300
handle_event-Isolated_example =
    handle_event-Isolated maker_env 8 release paying
      (buy_maker inbound_fc_notified (some "bc1q-peer")) refl not_8

abbrev sell_maker : FatCrabMakerSellActor
sell_maker = record {
  trade_uuid = 2;
  sell_data = record {
    store = record {
      order = sell_order;
      state = accepted_offer;
      peer_pubkey = some "taker";
      btc_rx_addr = "bc1q-own";
      peer_btc_txid = none;
      offer_envelopes = offer ∷ [];
      peer_envelope = none;
    };
    is_queued = true;
    network = fatcrab_trading.Common.Network.signet;
  };
  notif_tx = some 3;
}

abbrev selling : World
selling = record {
  self = record { inner = sell_actor sell_maker; trade_uuid = 2; notif_tx = some 3 };
  purse = purse;
  out = [];
}

-- A trade from the new order to the payment.
abbrev trade : List (MakerEnv × MakerEvent)
trade =
    (maker_env, MakerEvent.request FatCrabMakerRequest.post_new_order)
    ∷ (maker_env, MakerEvent.notification (MakerNotif.offer offer_envelope))
    ∷ (maker_env, MakerEvent.request (FatCrabMakerRequest.trade_response accept offer))
    ∷ (maker_env, MakerEvent.notification (MakerNotif.peer peer_envelope))
    ∷ []

abbrev starting : World
starting = buy_maker_world new none

starting-IsConsistent : IsConsistentWorld starting
starting-IsConsistent = ground arith

run-IsConsistent_example : IsConsistentWorld (final (run trade starting))
run-IsConsistent_example = run-IsConsistent trade starting starting-IsConsistent

trade-IsInbound : IsInbound (state_in (final (run trade starting)))
unfolding run handle_event handle_request handle_notif post_new_order handle_offer_notif
    validate_n3xb_offer Buy.trade_response handle_peer_notif Buy.handle_peer_notif
trade-IsInbound = inl refl

run-IsInbound_example : accepts trade ≡ true
run-IsInbound_example = run-IsInbound trade starting refl trade-IsInbound

handle_event-Steps_example :
    Steps release inbound_fc_notified (state_in (final (handle_event maker_env release paying)))
handle_event-Steps_example = handle_event-Steps maker_env release paying

cancel_order-Cancels_example :
    Cancels maker_env
      (buy_maker_ctx received_offer none)
      (Buy.can_cancel received_offer)
      none
      (final (Buy.cancel_order maker_env (buy_maker_ctx received_offer none)))
cancel_order-Cancels_example =
    cancel_order-Cancels maker_env (buy_maker_ctx received_offer none) 500 refl refl

purse-SpentOnce_8 : SpentOnce 8 purse
purse-SpentOnce_8 = record { distinct = (refl, (refl, tt)); once = inl refl }

actor_new-Begins_example :
    Begins 500 purse (actor_new float maker_env buy_order (some "fatcrab-own") purse)
actor_new-Begins_example =
    actor_new-Begins float maker_env buy_order (some "fatcrab-own") purse purse-SpentOnce_8.distinct
      refl

-- The exchange refuses every message.
abbrev mute_env : MakerEnv
mute_env = record maker_env { send_peer_message = λ message. some "offline" }

abbrev paying_ctx : BuyCtx
paying_ctx = buy_maker_ctx inbound_fc_notified (some "bc1q-peer")

paying-spends : (final (Buy.release_notify_peer mute_env paying_ctx)).purse ≢ purse
unfolding Buy.release_notify_peer Buy.pay_and_notify send_funds finish_and_broadcast
paying-spends = ground arith

release_notify_peer-Stuck_example :
    ((final (Buy.release_notify_peer mute_env paying_ctx)).self
      ≡ buy_maker inbound_fc_notified (some "bc1q-peer"))
    × IsUnchanged
        (final (Buy.release_notify_peer mute_env paying_ctx))
        (Buy.release_notify_peer maker_env (final (Buy.release_notify_peer mute_env paying_ctx)))
release_notify_peer-Stuck_example =
    release_notify_peer-Stuck mute_env paying_ctx "offline" purse-SpentOnce_8.distinct (λ m. refl)
      maker_env paying-spends

abbrev server : MakerServer
server = record { world = buy_maker_world accepted_offer none; is_running = true }

accessor-AreAnswered_example : AreAnswered maker_env server
accessor-AreAnswered_example = accessor-AreAnswered maker_env server

-- ===== src/Exchange/Tests.antt =====
-- Two engines that trade a buy and a sell order of 500 sats.
use fatcrab_trading.Base.{◌≡◌, refl, none, some, [], ◌∷◌, List}
use fatcrab_trading.Action.{ok, ret, final}
use fatcrab_trading.Common.{Network}
use fatcrab_trading.N3xb.{BitcoinNetwork, onchain, ObligationKind, OfferEnvelope}
use fatcrab_trading.Order.{fatcrab_kind}
use fatcrab_trading.Offer.{validate_n3xb_offer}
use fatcrab_trading.Purse.{
  Purse, send_funds, set_fee, finish_and_broadcast, data_deallocate_funds, log_broadcast,
}
use fatcrab_trading.Samples.{
  wallet, crate, purse, buy_order, sell_order, order_envelope, offer_envelope, buy_maker,
  buy_maker_world, sell_taker, sell_taker_world, maker_env, taker_env,
}
use fatcrab_trading.Maker
use fatcrab_trading.Maker.Sell.{FatCrabMakerSellDataStore}
use fatcrab_trading.Maker.Types.{FatCrabMakerState, MakerEvent, FatCrabMakerRequest}
use fatcrab_trading.Taker
use fatcrab_trading.Taker.Types.{FatCrabTakerState, TakerEvent, FatCrabTakerRequest}
use fatcrab_trading.Exchange.{Pair, serving_maker, serving_taker, agree, settle_buy, settle_sell}
use fatcrab_trading.Exchange.BuyOrder
use fatcrab_trading.Exchange.BuyOrder.{buy_order-Completes}
use fatcrab_trading.Exchange.SellOrder
use fatcrab_trading.Exchange.SellOrder.{sell_order-Completes}
use fatcrab_trading.Exchange.Moves.{Move, move_all, AreFair, Keeps}
use fatcrab_trading.Exchange.Safety.{IsHonest, move_all-IsHonest}
use fatcrab_trading.Exchange.SellMoves.{SellMove, sell_move_all, AreFairSell}
use fatcrab_trading.Exchange.SellSafety.{IsHonestSell, sell_move_all-IsHonest}
use fatcrab_trading.TradeRsp.{FatCrabTradeRspType}

abbrev taker_store : Taker.Buy.FatCrabTakerBuyDataStore
taker_store = record {
  order_envelope = record order_envelope { order = buy_order };
  state = FatCrabTakerState.new;
  btc_rx_addr = "bc1q-taker";
  peer_btc_txid = none;
  trade_rsp_envelope = none;
  peer_envelope = none;
}

abbrev maker_store : Maker.Buy.FatCrabMakerBuyDataStore
maker_store = (buy_maker FatCrabMakerState.new none).buy_data.store

abbrev maker_paid : Purse
maker_paid = final (send_funds wallet 7 "bc1q-taker" purse)

maker_pays : send_funds wallet 7 "bc1q-taker" purse ≡ ret "txid" maker_paid
unfolding send_funds set_fee finish_and_broadcast data_deallocate_funds log_broadcast
maker_pays = refl

offer_valid : validate_n3xb_offer offer_envelope.offer ≡ ok tt
unfolding validate_n3xb_offer
offer_valid = refl

abbrev buy_pair : Pair
buy_pair =
    BuyOrder.pair_at 1 Network.signet 3 4 wallet wallet crate crate purse purse maker_store []
      taker_store []

buy_order-Completes_example :
    BuyOrder.Completes 1 Network.signet 3 4 wallet wallet crate crate purse purse offer_envelope
      maker_store taker_store "fatcrabs" "txid" maker_paid
      (settle_buy
        (serving_maker wallet crate)
        (serving_taker wallet crate)
        "fatcrabs"
        (agree (serving_maker wallet crate) (serving_taker wallet crate) offer_envelope buy_pair))
buy_order-Completes_example =
    buy_order-Completes 1 Network.signet 3 4 wallet wallet crate crate purse purse offer_envelope
      maker_store taker_store "fatcrabs" "txid" maker_paid offer_valid refl (refl, refl)
      (refl, refl) refl maker_pays

abbrev sell_offer : OfferEnvelope
sell_offer = record {
  pubkey = "taker";
  event_id = "offer";
  offer = record {
    maker_obligation = record {
      kind = ObligationKind.custom fatcrab_kind;
      amount = 100;
      bond_amount = none;
    };
    taker_obligation = record {
      kind = ObligationKind.bitcoin BitcoinNetwork.signet (some onchain);
      amount = 500;
      bond_amount = none;
    };
  };
}

sell_offer_valid : validate_n3xb_offer sell_offer.offer ≡ ok tt
unfolding validate_n3xb_offer
sell_offer_valid = refl

abbrev seller_store : FatCrabMakerSellDataStore
seller_store = record {
  order = sell_order;
  state = FatCrabMakerState.new;
  peer_pubkey = none;
  btc_rx_addr = "bc1q-maker";
  peer_btc_txid = none;
  offer_envelopes = [];
  peer_envelope = none;
}

abbrev buyer_store : Taker.Sell.FatCrabTakerSellDataStore
buyer_store = (sell_taker FatCrabTakerState.new none).sell_data.store

abbrev taker_paid : Purse
taker_paid = final (send_funds wallet 8 "bc1q-maker" purse)

taker_pays : send_funds wallet 8 "bc1q-maker" purse ≡ ret "txid" taker_paid
unfolding send_funds set_fee finish_and_broadcast data_deallocate_funds log_broadcast
taker_pays = refl

sell_order-Completes_example :
    SellOrder.Completes 1 Network.signet 3 4 wallet wallet crate crate purse purse sell_offer
      seller_store buyer_store "fatcrabs" "txid" taker_paid
      (settle_sell (serving_maker wallet crate) (serving_taker wallet crate) "fatcrabs" (
        agree (serving_maker wallet crate) (serving_taker wallet crate) sell_offer (
          SellOrder.pair_at 1 Network.signet 3 4 wallet wallet crate crate purse purse seller_store
            [] buyer_store purse [])))
sell_order-Completes_example =
    sell_order-Completes 1 Network.signet 3 4 wallet wallet crate crate purse purse sell_offer
      seller_store buyer_store "fatcrabs" "txid" taker_paid sell_offer_valid refl (refl, refl)
      (refl, refl) refl taker_pays

-- The message is delivered twice, and the release is asked for twice.
abbrev moves : List Move
moves =
    Move.taker taker_env
      (TakerEvent.request (FatCrabTakerRequest.release_notify_peer (some "fatcrabs")))
    ∷ Move.deliver maker_env 0
    ∷ Move.maker maker_env (MakerEvent.request (FatCrabMakerRequest.release_notify_peer none))
    ∷ Move.deliver maker_env 0
    ∷ Move.maker maker_env (MakerEvent.request (FatCrabMakerRequest.release_notify_peer none))
    ∷ []

abbrev accepted_pair : Pair
accepted_pair = record buy_pair { maker = buy_maker_world FatCrabMakerState.accepted_offer none }

moves-AreFair : AreFair "bc1q-taker" moves
moves-AreFair =
    let keeps : Keeps "bc1q-taker" crate = record { from_str = refl; same = λ network. refl } in
    (keeps, (keeps, ((tt, keeps), (keeps, ((tt, keeps), tt)))))

accepted_pair-IsHonest : IsHonest "bc1q-taker" 7 accepted_pair
accepted_pair-IsHonest = record { knows = (tt, refl); tells = (refl, tt); pays = tt }

move_all-IsHonest_example : IsHonest "bc1q-taker" 7 (move_all moves accepted_pair)
move_all-IsHonest_example =
    move_all-IsHonest "bc1q-taker" 7 moves accepted_pair moves-AreFair accepted_pair-IsHonest

-- The answer is delivered twice, and the release is asked for again.
abbrev sell_moves : List SellMove
sell_moves =
    SellMove.maker maker_env (
      MakerEvent.request (
        FatCrabMakerRequest.trade_response FatCrabTradeRspType.accept
          (record { pubkey = "taker"; envelope = sell_offer })))
    ∷ SellMove.deliver taker_env 0
    ∷ SellMove.deliver taker_env 0
    ∷ SellMove.taker taker_env (TakerEvent.request (FatCrabTakerRequest.release_notify_peer none))
    ∷ []

abbrev submitted_pair : Pair
submitted_pair =
    record (SellOrder.pair_at 1 Network.signet 3 4 wallet wallet crate crate purse purse
      seller_store [] buyer_store purse []) {
        taker = sell_taker_world FatCrabTakerState.submitted_offer none;
      }

sell_moves-AreFair : AreFairSell "bc1q-maker" sell_moves
sell_moves-AreFair =
    let keeps : Keeps "bc1q-maker" crate = record { from_str = refl; same = λ network. refl } in
    (keeps, (keeps, (keeps, ((tt, keeps), tt))))

submitted_pair-IsHonest : IsHonestSell "bc1q-maker" 8 submitted_pair
submitted_pair-IsHonest = record { knows = (tt, refl); tells = (refl, tt); pays = tt }

sell_move_all-IsHonest_example :
    IsHonestSell "bc1q-maker" 8 (sell_move_all sell_moves submitted_pair)
sell_move_all-IsHonest_example =
    sell_move_all-IsHonest "bc1q-maker" 8 sell_moves submitted_pair sell_moves-AreFair
      submitted_pair-IsHonest

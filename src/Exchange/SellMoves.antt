-- ===== src/Exchange/SellMoves.antt =====
-- Two engines that trade a sell order, in any order of events: the requests of both applications, what the
-- n3xb crate reports, and the delivery to the taker of any answer that the maker has given to an offer.
use fatcrab_trading.Base.{ℕ, ⊤, String, Option, none, some, List, [], ◌∷◌, ◌≡◌}
use fatcrab_trading.N3xb.{
  TradeResponse, TradeEngineSpecifics, fatcrab_make_trade_rsp, other_specifics,
}
use fatcrab_trading.Maker.Types.{MakerEnv, MakerEffect, MakerEvent}
use fatcrab_trading.Taker.Types.{TakerEnv, TakerEvent, TakerNotif}
use fatcrab_trading.Exchange.{Pair}
use fatcrab_trading.Exchange.Moves.{at, on_maker, on_taker, Keeps}

pub data SellMove : Type 0 where
  maker : MakerEnv → MakerEvent → SellMove
  taker : TakerEnv → TakerEvent → SellMove
  -- The delivery of an answer of the maker, by its place among those that it has given.
  deliver : TakerEnv → ℕ → SellMove

abbrev pub answers : List MakerEffect → List TradeResponse
answers [] = []
answers (MakerEffect.accept_offer rsp ∷ out) = rsp ∷ answers out
answers (MakerEffect.reject_offer rsp ∷ out) = rsp ∷ answers out
answers (_ ∷ out) = answers out

abbrev pub answer_event : TradeResponse → TakerEvent
answer_event rsp =
    TakerEvent.notification (TakerNotif.trade_rsp (record { event_id = "answer"; trade_rsp = rsp }))

abbrev pub answered : TakerEnv → Option TradeResponse → Pair → Pair
answered env none p = p
answered env (some rsp) p = on_taker env (answer_event rsp) p

unfoldable pub sell_move : SellMove → Pair → Pair
sell_move (maker env e) p = on_maker env e p
sell_move (taker env e) p = on_taker env e p
sell_move (deliver env n) p = answered env (at n (answers p.maker.out)) p

unfoldable pub sell_move_all : List SellMove → Pair → Pair
sell_move_all [] p = p
sell_move_all (m ∷ ms) p = sell_move_all ms (sell_move m p)

-- The address in an answer, if there is one, is this text.
abbrev pub Names : String → TradeEngineSpecifics → Type 0
Names text (fatcrab_make_trade_rsp t) = t ≡ text
Names text other_specifics = ⊤

-- The taker hears the answers to its offer by the deliveries alone.
abbrev pub IsUnanswered : TakerEvent → Type 0
IsUnanswered (TakerEvent.notification (TakerNotif.trade_rsp e)) = ⊥
IsUnanswered _ = ⊤

abbrev pub IsFairSell : String → SellMove → Type 0
IsFairSell text (maker env e) = Keeps text env.crate
IsFairSell text (taker env e) = IsUnanswered e × Keeps text env.crate
IsFairSell text (deliver env n) = Keeps text env.crate

abbrev pub AreFairSell : String → List SellMove → Type 0
AreFairSell text [] = ⊤
AreFairSell text (m ∷ ms) = IsFairSell text m × AreFairSell text ms

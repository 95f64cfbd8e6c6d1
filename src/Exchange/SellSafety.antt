-- ===== src/Exchange/SellSafety.antt =====
-- To whom the taker of a sell order pays, in every order of events of the two engines.
use fatcrab_trading.Base.{
  ⊤, String, Option, none, some, List, [], ◌∷◌, ◌≡◌, refl, subst, arith, inl, inr,
}
use fatcrab_trading.Base.Dict.{Uuid}
use fatcrab_trading.Action.{final}
use fatcrab_trading.Common.{Address}
use fatcrab_trading.N3xb.{TradeResponse}
use fatcrab_trading.Taker
use fatcrab_trading.Taker.Types.{TakerEnv, TakerEvent, TakerNotif}
use fatcrab_trading.Taker.Payment.{taker_event-PaysOnly, IsPeerAddress}
use fatcrab_trading.Taker.Release.{IsStored, SellCtx, sell_ctx, inner_cases}
use fatcrab_trading.Exchange.{Pair}
use fatcrab_trading.Exchange.Moves.{at, on_taker, Agrees, Keeps}
use fatcrab_trading.Exchange.SellMoves.{
  SellMove, answers, answer_event, answered, sell_move, sell_move_all, Names, IsUnanswered,
  IsFairSell, AreFairSell,
}
use fatcrab_trading.Exchange.SellKnowledge.{
  KnowsSell, TellsSell, at-Answers, sell_event-Tells, on_answer-KnowsSell, own_event-KnowsSell,
}
use fatcrab_trading.Exchange.Safety.{PaysTo}

module _ (text : String) (id : Uuid) where
  -- An answer in this event names the address.
  abbrev EventNames : TakerEvent → Type 0
  EventNames (TakerEvent.notification (TakerNotif.trade_rsp n)) =
      Names text n.trade_rsp.trade_engine_specifics
  EventNames _ = ⊤

  stored-is :
      (env : TakerEnv) (c : SellCtx) (a : Address)
      → Keeps text env.crate
      → Agrees text c.self.sell_data.store.peer_btc_addr
      → IsStored env c a
      → a ≡ text
  stored-is env c a keeps knows stored =
      ground (arith, keeps.from_str, keeps.same c.purse.network, stored.2, stored.3, stored.4)

  peer_address-is :
      (env : TakerEnv) (e : TakerEvent) (c : SellCtx) (a : Address)
      → Keeps text env.crate
      → EventNames e
      → Agrees text c.self.sell_data.store.peer_btc_addr
      → IsPeerAddress env e c a
      → a ≡ text
  peer_address-is env (TakerEvent.notification (TakerNotif.trade_rsp n)) c a keeps names knows
        (t, g, stored) =
      stored-is env (Taker.Payment.answered t c) a keeps (subst (Names text) g names) stored
  peer_address-is env (TakerEvent.notification (TakerNotif.peer n)) c a keeps names knows stored =
      stored-is env c a keeps knows stored
  peer_address-is env (TakerEvent.notification (TakerNotif.failed n)) c a keeps names knows stored =
      stored-is env c a keeps knows stored
  peer_address-is env (TakerEvent.request r) c a keeps names knows stored =
      stored-is env c a keeps knows stored

  event-PaysPeer :
      (env : TakerEnv) (e : TakerEvent) (c : Taker.World)
      → Keeps text env.crate
      → EventNames e
      → KnowsSell text id c.self.inner
      → PaysTo text id c.purse.sent
      → PaysTo text id (final (Taker.Run.handle_event env e c)).purse.sent
  event-PaysPeer env e c keeps names h pays = elim (inner_cases c.self.inner) [
    | inl (b, is) ↦ ground arith
    | inr (s, is) ↦ elim (taker_event-PaysOnly env e c s is) [
      | inl same ↦ ground arith
      | inr (a, to, spends) ↦ ground (
        arith,
        peer_address-is env e (sell_ctx s c) a keeps names (subst (KnowsSell text id) is h).0 to,
        (subst (KnowsSell text id) is h).1,
        spends.logged,
        spends.for_funds,
        spends.pays_to,
      )
    ]
  ]

  -- The two engines: what the taker knows, what the maker has told, and what was paid.
  pub record IsHonestSell (p : Pair) : Type 0 where
    pub knows : KnowsSell text id p.taker.self.inner
    pub tells : TellsSell text p.maker
    pub pays : PaysTo text id p.taker.purse.sent

  on_taker-IsHonest :
      (env : TakerEnv) (e : TakerEvent) (p : Pair)
      → Keeps text env.crate
      → EventNames e
      → KnowsSell text id (final (Taker.Run.handle_event env e p.taker)).self.inner
      → IsHonestSell p
      → IsHonestSell (on_taker env e p)
  on_taker-IsHonest env e p keeps names knows h = record {
    knows = knows;
    tells = h.tells;
    pays = event-PaysPeer env e p.taker keeps names h.knows h.pays;
  }

  answered-IsHonest :
      (env : TakerEnv) (o : Option TradeResponse) (p : Pair)
      → Keeps text env.crate
      → ((r : TradeResponse) → o ≡ some r → Names text r.trade_engine_specifics)
      → IsHonestSell p
      → IsHonestSell (answered env o p)
  answered-IsHonest env none p keeps names h = h
  answered-IsHonest env (some r) p keeps names h =
      on_taker-IsHonest env (answer_event r) p keeps (names r refl)
        (on_answer-KnowsSell text id env r p.taker (names r refl) h.knows) h

  unanswered-Names : (e : TakerEvent) → IsUnanswered e → EventNames e
  unanswered-Names (TakerEvent.notification (TakerNotif.trade_rsp n)) own = absurd own
  unanswered-Names (TakerEvent.notification (TakerNotif.peer n)) own = tt
  unanswered-Names (TakerEvent.notification (TakerNotif.failed x)) own = tt
  unanswered-Names (TakerEvent.request r) own = tt

  sell_move-IsHonest :
      (m : SellMove) (p : Pair) → IsFairSell text m → IsHonestSell p → IsHonestSell (sell_move m p)
  unfolding sell_move
  sell_move-IsHonest (SellMove.maker env e) p fair h = record {
    knows = h.knows;
    tells = sell_event-Tells text env e p.maker fair h.tells;
    pays = h.pays;
  }
  sell_move-IsHonest (SellMove.taker env e) p fair h =
      on_taker-IsHonest env e p fair.1 (unanswered-Names e fair.0)
        (own_event-KnowsSell text id env e p.taker fair.0 h.knows) h
  sell_move-IsHonest (SellMove.deliver env n) p fair h =
      answered-IsHonest env (at n (answers p.maker.out)) p fair
        (λ r e. at-Answers text n (answers p.maker.out) r h.tells.1 e) h

  -- Whatever the two applications do, in whatever order the events come, whichever of the maker's answers
  -- are delivered, late, twice or never, and whatever the wallets and the n3xb crate answer: everything that
  -- the taker of a sell order broadcasts for its funds pays to the address that the maker got from its
  -- wallet. This supposes a taker that has stored no other address and a maker that has told no other,
  -- that the taker hears answers to its offer from this maker alone, and a `bitcoin` crate that prints an
  -- address as the text it was read from.
  pub sell_move_all-IsHonest :
      (ms : List SellMove) (p : Pair)
      → AreFairSell text ms
      → IsHonestSell p
      → IsHonestSell (sell_move_all ms p)
  unfolding sell_move_all
  sell_move_all-IsHonest [] p fair h = h
  sell_move_all-IsHonest (m ∷ ms) p fair h =
      sell_move_all-IsHonest ms (sell_move m p) fair.1 (sell_move-IsHonest m p fair.0 h)

-- ===== src/Exchange/Safety.antt =====
-- To whom the maker of a buy order pays, in every order of events of the two engines.
use fatcrab_trading.Base.{
  ⊤, String, Option, none, some, List, [], ◌∷◌, ◌≡◌, refl, subst, arith, inl, inr,
}
use fatcrab_trading.Base.Dict.{Uuid}
use fatcrab_trading.Action.{final}
use fatcrab_trading.Common.{Address, FatCrabPeerMessage}
use fatcrab_trading.Purse.{Broadcast}
use fatcrab_trading.Maker
use fatcrab_trading.Maker.Buy
use fatcrab_trading.Maker.Types.{MakerEnv, MakerEvent}
use fatcrab_trading.Maker.Payment.{handle_event-PaysOnly}
use fatcrab_trading.Maker.Release.{IsStored, buy_ctx, inner_cases}
use fatcrab_trading.Exchange.{Pair}
use fatcrab_trading.Exchange.Knowledge.{
  Knows, Tells, at-Says, event-Tells, own_event-Knows, message_event-Knows, peer_event,
}
use fatcrab_trading.Exchange.Moves.{
  Move, messages, at, on_maker, delivered, move, move_all, Agrees, Keeps, IsFair, AreFair,
}

module _ (text : String) (id : Uuid) where
  -- Every broadcast is of these funds, and pays to the address.
  abbrev pub PaysTo : List Broadcast → Type 0
  PaysTo [] = ⊤
  PaysTo (b ∷ bs) = (b.funds_id ≡ id) × (b.request.recipient ≡ text) × PaysTo bs

  stored-eq :
      (env : MakerEnv) (b : Buy.FatCrabMakerBuyActor) (c : Maker.World) (a : Address)
      → Keeps text env.crate
      → Agrees text b.buy_data.store.peer_btc_addr
      → IsStored env (buy_ctx b c) a
      → a ≡ text
  stored-eq env b c a keeps knows stored =
      ground (arith, keeps.from_str, keeps.same b.buy_data.network, stored.2, stored.3, stored.4)

  event-PaysTo :
      (env : MakerEnv) (e : MakerEvent) (c : Maker.World)
      → Keeps text env.crate
      → Knows text id c.self.inner
      → PaysTo c.purse.sent
      → PaysTo (final (Maker.Run.handle_event env e c)).purse.sent
  event-PaysTo env e c keeps h pays = elim (inner_cases c.self.inner) [
    | inr (s, is) ↦ ground arith
    | inl (b, is) ↦ elim (handle_event-PaysOnly env e c b is) [
      | inl same ↦ ground arith
      | inr (a, stored, spends) ↦ ground (
        arith,
        stored-eq env b c a keeps (subst (Knows text id) is h).0 stored,
        (subst (Knows text id) is h).1,
        spends.logged,
        spends.for_funds,
        spends.pays_to,
      )
    ]
  ]

  -- The two engines: what the maker knows, what the taker has told, and what was paid.
  pub record IsHonest (p : Pair) : Type 0 where
    pub knows : Knows text id p.maker.self.inner
    pub tells : Tells text p.taker
    pub pays : PaysTo p.maker.purse.sent

  on_maker-IsHonest :
      (env : MakerEnv) (e : MakerEvent) (p : Pair)
      → Keeps text env.crate
      → Knows text id (final (Maker.Run.handle_event env e p.maker)).self.inner
      → IsHonest p
      → IsHonest (on_maker env e p)
  on_maker-IsHonest env e p keeps knows h = record {
    knows = knows;
    tells = h.tells;
    pays = event-PaysTo env e p.maker keeps h.knows h.pays;
  }

  delivered-IsHonest :
      (env : MakerEnv) (m : Option FatCrabPeerMessage) (p : Pair)
      → Keeps text env.crate
      → ((x : FatCrabPeerMessage) → m ≡ some x → x.receive_address ≡ text)
      → IsHonest p
      → IsHonest (delivered env m p)
  delivered-IsHonest env none p keeps own h = h
  delivered-IsHonest env (some m) p keeps own h =
      on_maker-IsHonest env (peer_event text id m) p keeps
        (message_event-Knows text id env m p.maker keeps (own m refl) h.knows) h

  move-IsHonest : (m : Move) (p : Pair) → IsFair text m → IsHonest p → IsHonest (move m p)
  unfolding move
  move-IsHonest (Move.maker env e) p fair h =
      on_maker-IsHonest env e p fair.1 (own_event-Knows text id env e p.maker fair.0 h.knows) h
  move-IsHonest (Move.taker env e) p fair h = record {
    knows = h.knows;
    tells = event-Tells text env e p.taker fair h.tells;
    pays = h.pays;
  }
  move-IsHonest (Move.deliver env n) p fair h =
      delivered-IsHonest env (at n (messages p.taker.out)) p fair
        (λ m e. at-Says text n (messages p.taker.out) m h.tells.1 e) h

  -- Whatever the two applications do, in whatever order the events come, whichever of the taker's messages
  -- are delivered, late, twice or never, and whatever the wallets and the n3xb crate answer: everything that
  -- the maker of a buy order broadcasts for its funds pays to the address that the taker got from its wallet.
  -- This supposes a maker that has stored no other address and a taker that has told no other, that the
  -- maker hears from its peer through this taker alone, and a `bitcoin` crate that prints an address as the
  -- text it was read from.
  pub move_all-IsHonest :
      (ms : List Move) (p : Pair) → AreFair text ms → IsHonest p → IsHonest (move_all ms p)
  unfolding move_all
  move_all-IsHonest [] p fair h = h
  move_all-IsHonest (m ∷ ms) p fair h =
      move_all-IsHonest ms (move m p) fair.1 (move-IsHonest m p fair.0 h)

-- ===== src/Exchange/Moves.antt =====
-- Two engines that trade a buy order, in any order of events: the requests of both applications, what the
-- n3xb crate reports, and the delivery to the maker of any message that the taker has sent.
use fatcrab_trading.Base.{ℕ, zero, suc, ⊤, String, Option, none, some, List, [], ◌∷◌, ◌≡◌}
use fatcrab_trading.Action.{final}
use fatcrab_trading.Common.{Network, BitcoinCrate, FatCrabPeerMessage}
use fatcrab_trading.Maker
use fatcrab_trading.Maker.Types.{MakerEnv, MakerEvent, MakerNotif}
use fatcrab_trading.Taker
use fatcrab_trading.Taker.Types.{TakerEnv, TakerEffect, TakerEvent}
use fatcrab_trading.Exchange.{Pair, carried}

pub data Move : Type 0 where
  maker : MakerEnv → MakerEvent → Move
  taker : TakerEnv → TakerEvent → Move
  -- The delivery of a message of the taker, by its place among those that it has sent.
  deliver : MakerEnv → ℕ → Move

abbrev pub messages : List TakerEffect → List FatCrabPeerMessage
messages [] = []
messages (TakerEffect.send_peer_message m ∷ out) = m ∷ messages out
messages (_ ∷ out) = messages out

abbrev pub at {ℓ} : {A : Type ℓ} → ℕ → List A → Option A
at n [] = none
at zero (x ∷ xs) = some x
at (suc n) (x ∷ xs) = at n xs

abbrev pub on_maker : MakerEnv → MakerEvent → Pair → Pair
on_maker env e p = record p { maker = final (Maker.Run.handle_event env e p.maker) }

abbrev pub on_taker : TakerEnv → TakerEvent → Pair → Pair
on_taker env e p = record p { taker = final (Taker.Run.handle_event env e p.taker) }

abbrev pub delivered : MakerEnv → Option FatCrabPeerMessage → Pair → Pair
delivered env none p = p
delivered env (some m) p = on_maker env (MakerEvent.notification (MakerNotif.peer (carried m))) p

unfoldable pub move : Move → Pair → Pair
move (maker env e) p = on_maker env e p
move (taker env e) p = on_taker env e p
move (deliver env n) p = delivered env (at n (messages p.taker.out)) p

unfoldable pub move_all : List Move → Pair → Pair
move_all [] p = p
move_all (m ∷ ms) p = move_all ms (move m p)

-- Nothing, or this text.
abbrev pub Agrees : String → Option String → Type 0
Agrees text none = ⊤
Agrees text (some t) = t ≡ text

-- The `bitcoin` crate reads the address from its text, and `require_network` gives the same address back
-- where it does not refuse it.
pub record Keeps (text : String) (crate : BitcoinCrate) : Type 0 where
  pub from_str : crate.address_from_str text ≡ some text
  pub same : (network : Network) → Agrees text (crate.require_network text network)

-- The maker hears from its peer by the deliveries alone.
abbrev pub IsOwn : MakerEvent → Type 0
IsOwn (MakerEvent.notification (MakerNotif.peer e)) = ⊥
IsOwn _ = ⊤

abbrev pub IsFair : String → Move → Type 0
IsFair text (maker env e) = IsOwn e × Keeps text env.crate
IsFair text (taker env e) = Keeps text env.crate
IsFair text (deliver env n) = Keeps text env.crate

abbrev pub AreFair : String → List Move → Type 0
AreFair text [] = ⊤
AreFair text (m ∷ ms) = IsFair text m × AreFair text ms

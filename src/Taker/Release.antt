-- ===== src/Taker/Release.antt =====
-- The ways that the payment of a sell taker can take.
use fatcrab_trading.Base.{⊤, String, some, ◌≡◌, refl, ◌⊎◌, Option-cases, inl, inr, arith}
use mathlib.Core.Path.{subst⁻¹}
use fatcrab_trading.Action.{Outcome, raise, panic}
use fatcrab_trading.Error.{Description, simple, btc_address_not_received, address_not_on_network}
use fatcrab_trading.Common.{Address}
use fatcrab_trading.Taker.{FatCrabTakerInnerActor, World, buy_actor, sell_actor}
use fatcrab_trading.Taker.Buy.{FatCrabTakerBuyActor}
use fatcrab_trading.Actor.{Ctx}
use fatcrab_trading.Taker.Sell.{FatCrabTakerSellActor, release_btc_notify_peer, pay_and_notify}
use fatcrab_trading.Taker.Types.{TakerEffect, TakerEnv}

abbrev pub SellCtx : Type 0
SellCtx = Ctx FatCrabTakerSellActor TakerEffect

-- The peer's address as the actor has stored it, read for the network of the wallet.
abbrev pub IsStored : TakerEnv → SellCtx → Address → Type 0
IsStored env c addr =
    (text : String) × (unchecked : Address) × (c.self.sell_data.store.peer_btc_addr ≡ some text)
    × (env.crate.address_from_str text ≡ some unchecked)
    × (env.crate.require_network unchecked c.purse.network ≡ some addr)

-- It fails with one of two errors, it panics on a stored text that is no address, or it pays.
pub release_btc_notify_peer_cases {ℓ} :
    (Q : Outcome SellCtx ⊤ → Type ℓ) (env : TakerEnv) (c : SellCtx)
    → ((d : Description) → Q (raise (simple d) c))
    → Q (panic c)
    → ((a : Address) → IsStored env c a → Q (pay_and_notify env a c))
    → Q (release_btc_notify_peer env c)
unfolding release_btc_notify_peer
release_btc_notify_peer_cases Q env c failed bad pay =
    let uuid = c.self.trade_uuid in
    elim (Option-cases c.self.sell_data.store.peer_btc_addr) [
      | inl e ↦ subst⁻¹ Q (ground arith) (failed (btc_address_not_received uuid))
      | inr (text, e) ↦ elim (Option-cases (env.crate.address_from_str text)) [
        | inl f ↦ subst⁻¹ Q (ground arith) bad
        | inr (a, f) ↦ elim (Option-cases (env.crate.require_network a c.purse.network)) [
          | inl g ↦ subst⁻¹ Q (ground arith) (failed (address_not_on_network uuid text))
          | inr (b, g) ↦ subst⁻¹ Q (ground arith) (pay b (text, a, e, f, g))
        ]
      ]
    ]

pub inner_cases :
    (i : FatCrabTakerInnerActor)
    → ((b : FatCrabTakerBuyActor) × (i ≡ buy_actor b))
      ⊎ ((s : FatCrabTakerSellActor) × (i ≡ sell_actor s))
inner_cases (buy_actor b) = inl (b, refl)
inner_cases (sell_actor s) = inr (s, refl)

abbrev pub sell_ctx : FatCrabTakerSellActor → World → SellCtx
sell_ctx s c = record { self = s; purse = c.purse; out = c.out }

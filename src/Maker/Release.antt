-- ===== src/Maker/Release.antt =====
-- The ways that `release_notify_peer` of a buy maker can take.
use fatcrab_trading.Base.{⊤, String, none, some, ◌≡◌, refl, ◌⊎◌, Option-cases, inl, inr, arith}
use mathlib.Core.Path.{subst⁻¹}
use fatcrab_trading.Action.{Outcome, panic, err}
use fatcrab_trading.Error.{simple, btc_address_not_received}
use fatcrab_trading.Common.{Address}
use fatcrab_trading.Maker.{FatCrabMakerInnerActor, World, buy_actor, sell_actor}
use fatcrab_trading.Maker.Sell.{FatCrabMakerSellActor}
use fatcrab_trading.Actor.{Ctx, catch}
use fatcrab_trading.Maker.Buy.{
  FatCrabMakerBuyActor, Buy, reply_state, release_notify_peer, pay_and_notify,
}
use fatcrab_trading.Maker.Types.{MakerEffect, MakerEnv}

abbrev pub BuyCtx : Type 0
BuyCtx = Ctx FatCrabMakerBuyActor MakerEffect

-- The peer's address as the actor has stored it, read for the network of the wallet.
abbrev pub IsStored : MakerEnv → BuyCtx → Address → Type 0
IsStored env c addr =
    (text : String) × (unchecked : Address) × (c.self.buy_data.store.peer_btc_addr ≡ some text)
    × (env.crate.address_from_str text ≡ some unchecked)
    × (env.crate.require_network unchecked c.self.buy_data.network ≡ some addr)

-- A payment whose error is sent as the reply.
abbrev pub pay_or_reply : MakerEnv → Address → Buy ⊤
pay_or_reply env a = catch (λ e. reply_state env (err e)) (pay_and_notify env a)

-- Without an address it replies with an error; with a stored text that is no address of the network
-- it panics; else it pays to the address.
pub release_notify_peer_cases {ℓ} :
    (Q : Outcome BuyCtx ⊤ → Type ℓ) (env : MakerEnv) (c : BuyCtx)
    → (c.self.buy_data.store.peer_btc_addr ≡ none
        → Q (reply_state env (err (simple (btc_address_not_received c.self.trade_uuid))) c))
    → Q (panic c)
    → ((a : Address) → IsStored env c a → Q (pay_or_reply env a c))
    → Q (release_notify_peer env c)
unfolding release_notify_peer
release_notify_peer_cases Q env c missing bad pay =
    elim (Option-cases c.self.buy_data.store.peer_btc_addr) [
      | inl e ↦ subst⁻¹ Q (ground arith) (missing e)
      | inr (text, e) ↦ elim (Option-cases (env.crate.address_from_str text)) [
        | inl f ↦ subst⁻¹ Q (ground arith) bad
        | inr (a, f) ↦ elim (Option-cases (env.crate.require_network a c.self.buy_data.network)) [
          | inl g ↦ subst⁻¹ Q (ground arith) bad
          | inr (b, g) ↦ subst⁻¹ Q (ground arith) (pay b (text, a, e, f, g))
        ]
      ]
    ]

pub inner_cases :
    (i : FatCrabMakerInnerActor)
    → ((b : FatCrabMakerBuyActor) × (i ≡ buy_actor b))
      ⊎ ((s : FatCrabMakerSellActor) × (i ≡ sell_actor s))
inner_cases (buy_actor b) = inl (b, refl)
inner_cases (sell_actor s) = inr (s, refl)

abbrev pub buy_ctx : FatCrabMakerBuyActor → World → BuyCtx
buy_ctx b c = record { self = b; purse = c.purse; out = c.out }

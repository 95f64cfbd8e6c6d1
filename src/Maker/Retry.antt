-- ===== src/Maker/Retry.antt =====
-- A buy maker that has paid, but could not tell its peer.
use fatcrab_trading.Base.{ℕ, ◌≡◌, ◌≢◌, refl, arith, Option, none, some, ◌⊎◌, inl, inr, ⊤}
use fatcrab_trading.Base.Dict.{get, HasDistinctKeys}
use fatcrab_trading.Action.{Outcome, final}
use fatcrab_trading.Error.{ExternalError}
use fatcrab_trading.Maker.Buy
use fatcrab_trading.Maker.Release.{BuyCtx, pay_or_reply, release_notify_peer_cases}
use fatcrab_trading.Maker.Types.{MakerEnv}
use fatcrab_trading.Purse.{send_funds}
use fatcrab_trading.Purse.Gone.{send_funds-Gone}
use fatcrab_trading.Common.{Address, FatCrabPeerMessage}

-- The actor and the purse are as before.
abbrev pub IsUnchanged : BuyCtx → Outcome BuyCtx ⊤ → Type 0
IsUnchanged c o = ((final o).self ≡ c.self) × ((final o).purse ≡ c.purse)

abbrev funds_of : BuyCtx → Option ℕ
funds_of c = get c.self.buy_data.store.btc_funds_id c.purse.purse_data.store.allocated_funds

-- The actor is as before, and it either has spent its funds or the purse is as before, too.
abbrev Unreported : BuyCtx → Outcome BuyCtx ⊤ → Type 0
Unreported c o =
    ((final o).self ≡ c.self) × (((final o).purse ≡ c.purse) ⊎ (funds_of (final o) ≡ none))

pay_or_reply-IsUnchanged :
    (env : MakerEnv) (c : BuyCtx) (a : Address)
    → funds_of c ≡ none
    → IsUnchanged c (pay_or_reply env a c)
unfolding Buy.pay_and_notify send_funds
pay_or_reply-IsUnchanged env c a gone = ground arith

-- Without funds set aside, a release changes nothing, whatever the wallet and the exchange answer.
release_notify_peer-IsUnchanged :
    (env : MakerEnv) (c : BuyCtx)
    → funds_of c ≡ none
    → IsUnchanged c (Buy.release_notify_peer env c)
release_notify_peer-IsUnchanged env c gone =
    release_notify_peer_cases (IsUnchanged c) env c (λ _. ground arith) (refl, refl)
      (λ a _. pay_or_reply-IsUnchanged env c a gone)

module _ (env : MakerEnv) (c : BuyCtx) (x : ExternalError)
    (distinct : HasDistinctKeys c.purse.purse_data.store.allocated_funds)
    (refused : (m : FatCrabPeerMessage) → env.send_peer_message m ≡ some x) where
  pay_or_reply-Unreported : (a : Address) → Unreported c (pay_or_reply env a c)
  unfolding Buy.pay_and_notify
  pay_or_reply-Unreported a = grind (
    arith,
    send_funds-Gone env.wallet c.self.buy_data.store.btc_funds_id a c.purse distinct,
    refused,
  )

  release-Unreported : Unreported c (Buy.release_notify_peer env c)
  release-Unreported =
      release_notify_peer_cases (Unreported c) env c (λ _. ground arith) (refl, inl refl)
        (λ a _. pay_or_reply-Unreported a)

  -- A payment whose message to the peer fails cannot be made good by another release: after a release
  -- that changed the purse, while the exchange refuses the message, the actor is as before it, and
  -- every later release changes neither the actor nor the purse, whatever the answers are then.
  pub release_notify_peer-Stuck :
      (env' : MakerEnv)
      → (final (Buy.release_notify_peer env c)).purse ≢ c.purse
      → ((final (Buy.release_notify_peer env c)).self ≡ c.self)
        × IsUnchanged
            (final (Buy.release_notify_peer env c))
            (Buy.release_notify_peer env' (final (Buy.release_notify_peer env c)))
  release_notify_peer-Stuck env' spent = (
    release-Unreported.0,
    elim release-Unreported.1 [
      | inl e ↦ absurd (spent e)
      | inr e ↦ release_notify_peer-IsUnchanged env' (final (Buy.release_notify_peer env c)) e
    ],
  )

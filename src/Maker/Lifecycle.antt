-- ===== src/Maker/Lifecycle.antt =====
-- The life of a buy maker's trade: what each state says of the data that it has stored and of the
-- funds that the purse set aside for it.
use fatcrab_trading.Base.{true, none, [], ◌≡◌, ◌≢◌, arith, is_some}
use fatcrab_trading.Base.Dict.{get, HasDistinctKeys, get-remove_self, remove-HasDistinctKeys}
use fatcrab_trading.Action.{final}
use fatcrab_trading.Common.{Address}
use fatcrab_trading.Offer.{FatCrabOfferEnvelope}
use fatcrab_trading.TradeRsp.{FatCrabTradeRspType}
use fatcrab_trading.Maker.Buy.{
  FatCrabMakerBuyDataStore, cancel_order, trade_response, pay_and_notify, release_notify_peer,
  trade_complete,
}
use fatcrab_trading.Maker.Release.{BuyCtx, release_notify_peer_cases}
use fatcrab_trading.Maker.Types.{
  MakerEnv, received_offer, accepted_offer, inbound_fc_notified, inbound_btc_notified,
  notified_outbound, trade_cancelled,
}
use fatcrab_trading.Purse.{Purse, free_funds, data_deallocate_funds}
use fatcrab_trading.Purse.Gone.{send_funds-Gone}

pub record IsConsistent (s : FatCrabMakerBuyDataStore) (p : Purse) : Type 0 where
  pub distinct : HasDistinctKeys p.purse_data.store.allocated_funds
  -- An offer is there once one was reported.
  pub received : s.state ≡ received_offer → s.offer_envelopes ≢ []
  pub accepted : s.state ≡ accepted_offer → is_some s.peer_pubkey ≡ true
  -- The peer's message and its bitcoin address are there once it was reported.
  pub inbound :
      s.state ≡ inbound_fc_notified
      → (is_some s.peer_btc_addr ≡ true) × (is_some s.peer_envelope ≡ true)
  -- The funds are gone once the peer was told of the payment, and once the order is cancelled.
  pub outbound :
      s.state ≡ notified_outbound → get s.btc_funds_id p.purse_data.store.allocated_funds ≡ none
  pub cancelled :
      s.state ≡ trade_cancelled → get s.btc_funds_id p.purse_data.store.allocated_funds ≡ none
  -- Bitcoin comes in for the maker of a sell order only.
  pub never_btc : s.state ≢ inbound_btc_notified

abbrev pub IsConsistentCtx : BuyCtx → Type 0
IsConsistentCtx c = IsConsistent c.self.buy_data.store c.purse

module _ (env : MakerEnv) (c : BuyCtx) where
  pub cancel_order-IsConsistent : IsConsistentCtx c → IsConsistentCtx (final (cancel_order env c))
  unfolding cancel_order free_funds data_deallocate_funds
  cancel_order-IsConsistent h =
      let funds_id = c.self.buy_data.store.btc_funds_id in
      let allocated = c.purse.purse_data.store.allocated_funds in
      ground (
        arith,
        remove-HasDistinctKeys funds_id allocated h.distinct,
        get-remove_self funds_id allocated h.distinct,
      )

  pub trade_response-IsConsistent :
      (t : FatCrabTradeRspType) (o : FatCrabOfferEnvelope)
      → IsConsistentCtx c
      → IsConsistentCtx (final (trade_response env t o c))
  unfolding trade_response
  trade_response-IsConsistent FatCrabTradeRspType.accept o h = ground arith
  trade_response-IsConsistent FatCrabTradeRspType.reject o h = ground arith

  pay_and_notify-IsConsistent :
      (a : Address) → IsConsistentCtx c → IsConsistentCtx (final (pay_and_notify env a c))
  unfolding pay_and_notify
  pay_and_notify-IsConsistent a h =
      ground
        (arith, send_funds-Gone env.wallet c.self.buy_data.store.btc_funds_id a c.purse h.distinct)

  pub release_notify_peer-IsConsistent :
      IsConsistentCtx c → IsConsistentCtx (final (release_notify_peer env c))
  release_notify_peer-IsConsistent h =
      release_notify_peer_cases (λ o. IsConsistentCtx (final o)) env c (λ _. ground arith) h
        (λ a _. ground (arith, pay_and_notify-IsConsistent a h))

  pub trade_complete-IsConsistent :
      IsConsistentCtx c → IsConsistentCtx (final (trade_complete env c))
  unfolding trade_complete
  trade_complete-IsConsistent h = ground arith

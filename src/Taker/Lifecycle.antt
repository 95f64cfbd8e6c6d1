-- ===== src/Taker/Lifecycle.antt =====
-- The life of a sell taker's trade: what each state says of the data that it has stored and of the
-- funds that the purse set aside for it.
use fatcrab_trading.Base.{⊤, true, none, ◌≡◌, ◌≢◌, refl, arith, is_some}
use fatcrab_trading.Base.Dict.{get, HasDistinctKeys, get-remove_self, remove-HasDistinctKeys}
use fatcrab_trading.Action.{Outcome, ret, raise, panic, final}
use fatcrab_trading.Common.{Address}
use fatcrab_trading.N3xb.{TradeResponseEnvelope}
use fatcrab_trading.TradeRsp.{FatCrabTradeRsp}
use fatcrab_trading.Taker.Sell.{
  FatCrabTakerSellDataStore, pay_and_notify, release_btc_notify_peer, release_notify_peer,
  handle_trade_rsp_notif,
}
use fatcrab_trading.Taker.Release.{SellCtx, release_btc_notify_peer_cases}
use fatcrab_trading.Taker.Types.{
  TakerEnv, offer_accepted, offer_rejected, notified_outbound, inbound_btc_notified,
  inbound_fc_notified,
}
use fatcrab_trading.Purse.{Purse, free_funds, data_deallocate_funds}
use fatcrab_trading.Purse.Gone.{send_funds-Gone}

abbrev IsGone : FatCrabTakerSellDataStore → Purse → Type 0
IsGone s p = get s.btc_funds_id p.purse_data.store.allocated_funds ≡ none

pub record IsConsistent (s : FatCrabTakerSellDataStore) (p : Purse) : Type 0 where
  pub distinct : HasDistinctKeys p.purse_data.store.allocated_funds
  -- The maker's address is there once the offer was accepted.
  pub accepted : s.state ≡ offer_accepted → is_some s.peer_btc_addr ≡ true
  -- The funds are free again once it was rejected.
  pub rejected : s.state ≡ offer_rejected → IsGone s p
  -- They are spent once the peer was told of the payment.
  pub outbound : s.state ≡ notified_outbound → IsGone s p
  -- The peer's message is there once it was reported, and it comes after the payment only.
  pub inbound : s.state ≡ inbound_fc_notified → IsGone s p × (is_some s.peer_envelope ≡ true)
  -- Bitcoin comes in for the taker of a buy order only.
  pub never_btc : s.state ≢ inbound_btc_notified

abbrev pub IsConsistentCtx : SellCtx → Type 0
IsConsistentCtx c = IsConsistent c.self.sell_data.store c.purse

-- After a payment: the store is the same, and where it succeeded the funds are gone.
abbrev Pays : FatCrabTakerSellDataStore → Outcome SellCtx ⊤ → Type 0
Pays s (ret x c) =
    (c.self.sell_data.store ≡ s)
    × HasDistinctKeys c.purse.purse_data.store.allocated_funds
    × IsGone s c.purse
Pays s (raise e c) = IsConsistentCtx c × (c.self.sell_data.store ≡ s)
Pays s (panic c) = IsConsistentCtx c

module _ (env : TakerEnv) (c : SellCtx) where
  pay_and_notify-Pays :
      (a : Address) → IsConsistentCtx c → Pays c.self.sell_data.store (pay_and_notify env a c)
  unfolding pay_and_notify
  pay_and_notify-Pays a h =
      ground
        (arith, send_funds-Gone env.wallet c.self.sell_data.store.btc_funds_id a c.purse h.distinct)

  release-Pays : IsConsistentCtx c → Pays c.self.sell_data.store (release_btc_notify_peer env c)
  release-Pays h =
      release_btc_notify_peer_cases (Pays c.self.sell_data.store) env c (λ _. (h, refl)) h
        (λ a _. pay_and_notify-Pays a h)

module _ (env : TakerEnv) where
  pub release_notify_peer-IsConsistent :
      (c : SellCtx) → IsConsistentCtx c → IsConsistentCtx (final (release_notify_peer env c))
  unfolding release_notify_peer
  release_notify_peer-IsConsistent c h = ground (arith, release-Pays env c h)

  pub handle_trade_rsp_notif-IsConsistent :
      (t : FatCrabTradeRsp) (n : TradeResponseEnvelope) (c : SellCtx)
      → IsConsistentCtx c
      → IsConsistentCtx (final (handle_trade_rsp_notif env t n c))
  unfolding handle_trade_rsp_notif free_funds data_deallocate_funds
  handle_trade_rsp_notif-IsConsistent (FatCrabTradeRsp.accept a) n c h = grind (arith, release-Pays)
  handle_trade_rsp_notif-IsConsistent FatCrabTradeRsp.reject n c h =
      let funds_id = c.self.sell_data.store.btc_funds_id in
      let allocated = c.purse.purse_data.store.allocated_funds in
      ground (
        arith,
        remove-HasDistinctKeys funds_id allocated h.distinct,
        get-remove_self funds_id allocated h.distinct,
      )

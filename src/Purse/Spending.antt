-- ===== src/Purse/Spending.antt =====
-- Spending: what `send_funds` does on every way out, and that funds are spent at most once.
use fatcrab_trading.Base.{
  ℕ, ◌≡◌, refl, subst, ◌⊎◌, arith, none, some, ◌∷◌, inl, inr, Option-cases, Bool-cases, true,
}
use fatcrab_trading.Base.Dict.{Uuid, get, remove, HasDistinctKeys, get-remove_self}
use fatcrab_trading.Action.{Outcome, ret, raise, panic, Result-cases, ◌>>=◌}
use fatcrab_trading.Error.{FatCrabError, bdk, simple, allocated_funds_not_found}
use fatcrab_trading.Common.{Address, Txid, is_regtest}
use fatcrab_trading.Purse.{
  Purse, Bdk, Broadcast, TxRequest, new_tx_request, finish_and_broadcast, set_fee, send_funds,
}

-- One more broadcast stands in the log: it pays the allocated amount to the address, and the
-- allocation is gone; the change is queued for saving.
pub record Spends (id : Uuid) (address : Address) (p p' : Purse) : Type 0 where
  pub sats : ℕ
  pub broadcast : Broadcast
  pub was_allocated : get id p.purse_data.store.allocated_funds ≡ some sats
  pub saved : p'.purse_data.is_queued ≡ true
  pub logged : p'.sent ≡ broadcast ∷ p.sent
  pub for_funds : broadcast.funds_id ≡ id
  pub pays_to : broadcast.request.recipient ≡ address
  pub pays : broadcast.request.sats ≡ sats
  pub deallocated :
      p'.purse_data.store.allocated_funds ≡ remove id p.purse_data.store.allocated_funds

abbrev pub SendOutcome : Uuid → Address → Purse → Outcome Purse Txid → Type 0
SendOutcome id address p (ret txid p') = Spends id address p p'
SendOutcome id address p (raise e p') = p' ≡ p
SendOutcome id address p (panic p') = ⊥

-- The fee changes neither the recipient nor the amount, and estimating it changes nothing.
set_fee-cases :
    (w : Bdk) (tx : TxRequest) (p : Purse)
    → ((tx' : TxRequest) × (set_fee w tx p.network p ≡ ret tx' p)
        × (tx'.recipient ≡ tx.recipient)
        × (tx'.sats ≡ tx.sats))
      ⊎ ((e : FatCrabError) × (set_fee w tx p.network p ≡ raise e p))
unfolding set_fee
set_fee-cases w tx p = elim (Bool-cases (is_regtest p.network)) [
  | inl r ↦ inl (tx, ground arith, refl, refl)
  | inr r ↦ elim (Result-cases (w.estimate_fee 5)) [
    | inl (fee, f) ↦ inl (record tx { fee_rate = some fee; rbf = true }, ground arith, refl, refl)
    | inr (x, f) ↦ inr (bdk x, ground arith)
  ]
]

module _ (w : Bdk) (id : Uuid) (p : Purse) where
  finish_and_broadcast-SendOutcome :
      (tx : TxRequest)
      → get id p.purse_data.store.allocated_funds ≡ some tx.sats
      → SendOutcome id tx.recipient p (finish_and_broadcast w id tx p)
  unfolding finish_and_broadcast
  finish_and_broadcast-SendOutcome tx e = elim (Result-cases (w.finish tx)) [
    | inr (x, f) ↦ rw f refl
    | inl (psbt, f) ↦ elim (Result-cases (w.sign psbt)) [
      | inr (x, g) ↦ rw (f, g) refl
      | inl (signed, g) ↦ elim (Option-cases (w.broadcast (w.extract_tx signed))) [
        | inr (x, h) ↦ rw (f, g, h) refl
        | inl h ↦
            rw (f, g, h, e)
              (record {
                sats = tx.sats;
                broadcast = record { funds_id = id; request = tx; tx = w.extract_tx signed };
                was_allocated = e;
                saved = refl;
                logged = refl;
                for_funds = refl;
                pays_to = refl;
                pays = refl;
                deallocated = refl;
              })
      ]
    ]
  ]

  -- `send_funds` never panics. When it fails, nothing has changed; when it succeeds, it has
  -- broadcast one transaction, which pays what was set aside under the id to the address, the
  -- allocation is gone, and the persister is queued.
  pub send_funds-SendOutcome :
      (address : Address) → SendOutcome id address p (send_funds w id address p)
  unfolding send_funds
  send_funds-SendOutcome address = elim (Option-cases (get id p.purse_data.store.allocated_funds)) [
    | inl e ↦ rw e refl
    | inr (sats, e) ↦ elim (set_fee-cases w (new_tx_request address sats) p) [
      | inl (tx, f, to, pays) ↦
          rw (e, f, ◌>>=◌)
            (subst (λ a. SendOutcome id a p (finish_and_broadcast w id tx p)) to
              (finish_and_broadcast-SendOutcome tx (rw pays e)))
      | inr (x, f) ↦ rw (e, f, ◌>>=◌) refl
    ]
  ]

-- In a purse with one entry for an id, funds that were spent cannot be spent again: after a
-- `send_funds` that succeeded, a second one under the id is refused and changes nothing, whatever
-- the wallet answers then.
pub send_funds_twice :
    (w w' : Bdk) (id : Uuid) (address address' : Address) (p p' : Purse) {txid : Txid}
    → HasDistinctKeys p.purse_data.store.allocated_funds
    → send_funds w id address p ≡ ret txid p'
    → send_funds w' id address' p' ≡ raise (simple (allocated_funds_not_found id)) p'
unfolding send_funds
send_funds_twice w w' id address address' p p' distinct sent = rw (gone, ◌>>=◌) refl
  where
    spent : Spends id address p p'
    spent = subst (SendOutcome id address p) sent (send_funds-SendOutcome w id p address)

    gone : get id p'.purse_data.store.allocated_funds ≡ none
    gone = rw spent.deallocated (get-remove_self id p.purse_data.store.allocated_funds distinct)

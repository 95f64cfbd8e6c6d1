-- ===== src/Purse/Confirmations.antt =====
-- The number of confirmations of a transaction.
use fatcrab_trading.Base.{
  ℕ, ◌+◌, ◌≤◌, ◌<◌, ◌≡◌, arith, Option, none, some, Option-cases, inl, inr, refl, subst, sym,
}
use fatcrab_trading.Action.{Outcome, ret, raise, panic, Result, ok, err, Result-cases, u32_mod}
use fatcrab_trading.Error.{
  ExternalError, tx_not_found, tx_unconfirmed, simple, bdk, conf_height_above_height,
}
use fatcrab_trading.Common.{Txid}
use fatcrab_trading.Purse.{Purse, Bdk, TxDetails, get_tx_conf}

-- The answer for a transaction with this confirmation height, on a chain of this height.
abbrev pub ConfirmsAt : ℕ → Option ℕ → Purse → Outcome Purse ℕ → Type 0
ConfirmsAt height none p o = o ≡ raise tx_unconfirmed p
ConfirmsAt height (some c) p (ret n p') = (p' ≡ p) × (1 ≤ n) × (n + c ≡ height + 1)
ConfirmsAt height (some c) p (raise e p') =
    (p' ≡ p) × (height < c) × (e ≡ simple conf_height_above_height)
ConfirmsAt height (some c) p (panic p') = ⊥

abbrev pub Confirms : ℕ → Result (Option TxDetails) ExternalError → Purse → Outcome Purse ℕ → Type 0
Confirms height (err x) p o = o ≡ raise (bdk x) p
Confirms height (ok none) p o = o ≡ raise tx_not_found p
Confirms height (ok (some details)) p o = ConfirmsAt height details.confirmation_height p o

ConfirmsAt-get_tx_conf :
    (w : Bdk) (txid : Txid) (p : Purse) (details : TxDetails)
    → p.purse_data.store.height + 1 < u32_mod
    → w.get_tx txid ≡ ok (some details)
    → ConfirmsAt p.purse_data.store.height details.confirmation_height p (get_tx_conf w txid p)
unfolding get_tx_conf
ConfirmsAt-get_tx_conf w txid p details fits found =
    elim (Option-cases details.confirmation_height) [
      | inl e ↦ rw (found, e) refl
      | inr (c, e) ↦ rw (found, e) (ground arith)
    ]

-- For a stored chain height below 2^32 - 1, the answer counts the block of the transaction and
-- those on top of it. It is an error, in the order of the checks, if the wallet fails, does not know
-- the transaction, has it unconfirmed, or confirmed above the stored height. The purse is unchanged.
pub get_tx_conf-Confirms :
    (w : Bdk) (txid : Txid) (p : Purse)
    → p.purse_data.store.height + 1 < u32_mod
    → Confirms p.purse_data.store.height (w.get_tx txid) p (get_tx_conf w txid p)
unfolding get_tx_conf
get_tx_conf-Confirms w txid p fits = elim (Result-cases (w.get_tx txid)) [
  | inr (x, f) ↦ rw f refl
  | inl (found, f) ↦ elim (Option-cases found) [
    | inl e ↦ let g : w.get_tx txid ≡ ok none = rw (f, e) refl in rw g refl
    | inr (details, e) ↦
        let g : w.get_tx txid ≡ ok (some details) = rw (f, e) refl in
        subst (λ r. Confirms p.purse_data.store.height r p (get_tx_conf w txid p)) (sym g)
          (ConfirmsAt-get_tx_conf w txid p details fits g)
  ]
]

-- ===== src/Purse/Solvency.antt =====
-- Allocation: what is set aside never exceeds what the wallet can spend, as long as the wallet's
-- balance does not fall below it.
use fatcrab_trading.Base.{
  ℕ, ◌+◌, ◌-◌, ◌<◌, ◌≤◌, ◌≡◌, ⊤, arith, Option, none, some, leb, Option-cases, inl, inr,
  if◌then◌else◌,
}
use fatcrab_trading.Base.Dict.{
  Uuid, get, sum-insert_new, sum-remove, get-insert, remove-eq_self, remove,
}
use fatcrab_trading.Action.{Outcome, final, ret, raise, panic, ok, u64_mod}
use fatcrab_trading.Error.{simple, insufficient_funds, allocated_funds_not_found}
use fatcrab_trading.Common.{WalletBalance}
use fatcrab_trading.Purse.{
  Purse, Bdk, allocatable_balance, allocate_funds, free_funds, data_allocate_funds,
  data_deallocate_funds,
}
use fatcrab_trading.Purse.Total.{total, total_funds_allocated_lem}

-- What the wallet can spend, now or once its own transactions confirm.
abbrev pub spendable : WalletBalance → ℕ
spendable b = b.confirmed + b.trusted_pending

-- A granted allocation adds the amount under the new id and stays within the limit; a refused one
-- changes nothing.
abbrev pub Allocates : Uuid → ℕ → ℕ → Purse → Outcome Purse Uuid → Type 0
Allocates new sats limit p (ret id p') =
    (id ≡ new)
    × (total p' ≡ total p + sats)
    × (total p' ≤ limit)
    × (get new p'.purse_data.store.allocated_funds ≡ some sats)
Allocates new sats limit p (raise e p') = (p' ≡ p) × (limit < total p + sats)
Allocates new sats limit p (panic p') = ⊥

module _ (w : Bdk) (p : Purse) {b : WalletBalance} (known : w.get_balance ≡ ok b) where
  module _ (fits : spendable b < u64_mod) where
    allocatable_balance_lem :
        total p ≤ spendable b → allocatable_balance w p ≡ ret (spendable b - total p) p
    unfolding allocatable_balance
    allocatable_balance_lem solvent = ground (arith, total_funds_allocated_lem w.overflow_checks p)

  -- What `allocate_funds` does while the purse is solvent: it grants the request exactly when the
  -- spendable balance covers it on top of what is already set aside, and otherwise changes nothing.
  module _ (fits : spendable b < u64_mod) (solvent : total p ≤ spendable b) where
    pub allocate_funds_lem :
        (sats : ℕ)
        → allocate_funds w sats p ≡ (
            if leb (total p + sats) (spendable b)
            then ret w.new_uuid
                (final (data_allocate_funds w.new_uuid sats (some p.purse_data.store.height) p))
            else raise (simple insufficient_funds) p)
    unfolding allocate_funds data_allocate_funds
    allocate_funds_lem sats = ground (arith, allocatable_balance_lem fits solvent)

    -- A purse whose allocations are covered by what the wallet can spend, a u64, never panics on
    -- a request under a new id: it grants the request, sets aside exactly what was asked for
    -- under the new id and stays covered, or it refuses it, because the balance does not cover
    -- it, and changes nothing.
    pub allocate_funds-total :
        (sats : ℕ)
        → get w.new_uuid p.purse_data.store.allocated_funds ≡ none
        → Allocates w.new_uuid sats (spendable b) p (allocate_funds w sats p)
    unfolding data_allocate_funds
    allocate_funds-total sats fresh = rw (allocate_funds_lem sats) (
        ground (
          arith,
          sum-insert_new w.new_uuid sats p.purse_data.store.allocated_funds fresh,
          get-insert w.new_uuid w.new_uuid sats p.purse_data.store.allocated_funds,
        ))

  -- Once more is set aside than the wallet can spend, though still a u64, the check is void: the
  -- subtraction wraps around in a build without overflow checks, and a request is granted that
  -- what is left below 2^64 covers; a build with the checks panics.
  pub allocate_funds_overcommits :
      (sats : ℕ)
      → total p < u64_mod
      → spendable b < total p
      → sats + total p ≤ spendable b + u64_mod
      → allocate_funds w sats p ≡ (
          if w.overflow_checks
          then panic p
          else ret w.new_uuid
              (final (data_allocate_funds w.new_uuid sats (some p.purse_data.store.height) p)))
  unfolding allocate_funds allocatable_balance data_allocate_funds
  allocate_funds_overcommits sats fits over room =
      ground (arith, total_funds_allocated_lem w.overflow_checks p)

-- How freeing ends, by what was set aside under the id.
abbrev pub Frees : Uuid → Purse → Option ℕ → Outcome Purse ⊤ → Type 0
Frees id p (some sats) (ret x p') =
    (total p' + sats ≡ total p)
    × (p'.purse_data.store.allocated_funds ≡ remove id p.purse_data.store.allocated_funds)
Frees id p none (raise e p') =
    (e ≡ simple (allocated_funds_not_found id)) × (p'.purse_data.store ≡ p.purse_data.store)
Frees id p _ _ = ⊥

-- Freeing funds gives back exactly what was set aside under the id; an id that is not there is an
-- error, and the stored data stay.
pub free_funds-Frees :
    (id : Uuid) (p : Purse)
    → Frees id p (get id p.purse_data.store.allocated_funds) (free_funds id p)
unfolding free_funds data_deallocate_funds
free_funds-Frees id p = elim (Option-cases (get id p.purse_data.store.allocated_funds)) [
  | inl e ↦ rw e (ground (arith, remove-eq_self id p.purse_data.store.allocated_funds))
  | inr (sats, e) ↦ rw e (ground (arith, sum-remove id sats p.purse_data.store.allocated_funds e))
]

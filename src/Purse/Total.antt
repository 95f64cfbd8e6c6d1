-- ===== src/Purse/Total.antt =====
-- The sum of the allocated funds: what the machine computes is the sum of the numbers, where that
-- fits 64 bits.
use fatcrab_trading.Base.{ℕ, ◌+◌, ◌<◌, ◌≡◌, Bool, [], ◌∷◌, arith, some}
use fatcrab_trading.Base.Dict.{Dict, sum}
use fatcrab_trading.Action.{ret, u64_mod}
use fatcrab_trading.Purse.{Purse, sum_from, total_funds_allocated}

-- The unbounded total.
abbrev pub total : Purse → ℕ
total p = sum p.purse_data.store.allocated_funds

pub sum_from-sum :
    (checks : Bool) (acc : ℕ) (d : Dict ℕ)
    → acc + sum d < u64_mod
    → sum_from checks acc d ≡ some (acc + sum d)
unfolding sum_from
sum_from-sum checks acc [] h = ground arith
sum_from-sum checks acc ((k, v) ∷ d) h = ground (arith, sum_from-sum checks (acc + v) d)

pub total_funds_allocated_lem :
    (checks : Bool) (p : Purse)
    → total p < u64_mod
    → total_funds_allocated checks p ≡ ret (total p) p
unfolding total_funds_allocated
total_funds_allocated_lem checks p h =
    ground (arith, sum_from-sum checks 0 p.purse_data.store.allocated_funds)

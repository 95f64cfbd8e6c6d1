-- ===== src/Purse/Iteration.antt =====
-- The order in which the purse's `HashMap` holds its entries, which is not the same in two runs: what the
-- actor does does not depend on it.
use fatcrab_trading.Base.{
  ℕ, ◌+◌, ◌%◌, ◌<◌, ◌≡◌, ◌∙◌, sym, ap, refl, Bool, true, false, Option, none, some, [], ◌∷◌, arith,
  ltb, if◌then◌else◌, ◌==◌, ◌≢◌, Bool-cases, inl, inr,
}
use fatcrab_trading.Base.Dict.{
  Uuid, Dict, get, remove, insert, HasDistinctKeys, sum, sum-remove, get-remove_self, get-remove_ne,
  get-insert, remove-HasDistinctKeys,
}
use fatcrab_trading.Action.{u64_mod}
use fatcrab_trading.Purse.{sum_from}

-- What the machine makes of the sum, whatever the order of the additions.
abbrev wrapped : Bool → ℕ → Option ℕ
wrapped true n = if ltb n u64_mod then some n else none
wrapped false n = some (n % u64_mod)

sum_from_lem :
    (checks : Bool) (acc : ℕ) (d : Dict ℕ)
    → acc < u64_mod
    → sum_from checks acc d ≡ wrapped checks (acc + sum d)
unfolding sum_from
sum_from_lem true acc [] h = ground arith
sum_from_lem false acc [] h = ground arith
sum_from_lem true acc ((k, v) ∷ d) h = ground (arith, sum_from_lem true (acc + v) d)
sum_from_lem false acc ((k, v) ∷ d) h = ground (arith, sum_from_lem false ((acc + v) % u64_mod) d)

eq_of : (j k : ℕ) → (j == k) ≡ true → j ≡ k
eq_of j k e = ground arith

ne_of : (j k : ℕ) → (j == k) ≡ false → j ≢ k
ne_of j k e = ground arith

-- Two maps with the same entries.
abbrev pub Same {ℓ} : {V : Type ℓ} → Dict V → Dict V → Type ℓ
Same d d' = (k : Uuid) → get k d ≡ get k d'

module _ {ℓ} {V : Type ℓ} where
  pub remove-Same :
      (k : Uuid) (d d' : Dict V)
      → HasDistinctKeys d
      → HasDistinctKeys d'
      → Same d d'
      → Same (remove k d) (remove k d')
  remove-Same k d d' h h' same j = elim (Bool-cases (j == k)) [
    | inl e ↦ ground (arith, same j, get-remove_self k d h, get-remove_self k d' h', eq_of j k e)
    | inr e ↦
        ground
          (arith, same j, get-remove_ne j k d (ne_of j k e), get-remove_ne j k d' (ne_of j k e))
  ]

  pub insert-Same :
      (k : Uuid) (v : V) (d d' : Dict V) → Same d d' → Same (insert k v d) (insert k v d')
  insert-Same k v d d' same j = ground (arith, get-insert j k v d, get-insert j k v d', same j)

  nil-Same : (d : Dict V) → Same [] d → d ≡ []
  nil-Same [] same = refl
  nil-Same ((k, v) ∷ d) same = ground (arith, same k)

sum-Same : (d d' : Dict ℕ) → HasDistinctKeys d → HasDistinctKeys d' → Same d d' → sum d ≡ sum d'
sum-Same [] d' h h' same = rw (nil-Same d' same) refl
sum-Same ((k, v) ∷ d) d' h h' same =
    let ih =
      sum-Same d (remove k d') h.1 (remove-HasDistinctKeys k d' h')
        (λ j. ground (arith, remove-Same k ((k, v) ∷ d) d' h h' same j)) in
    ground (arith, ih, sum-remove k v d', same k)

pub sum_from-Same :
    (checks : Bool) (d d' : Dict ℕ)
    → HasDistinctKeys d
    → HasDistinctKeys d'
    → Same d d'
    → sum_from checks 0 d ≡ sum_from checks 0 d'
sum_from-Same checks d d' h h' same =
    sum_from_lem checks 0 d (ground arith)
    ∙ ap (λ n. wrapped checks (0 + n)) (sum-Same d d' h h' same)
    ∙ sym (sum_from_lem checks 0 d' (ground arith))

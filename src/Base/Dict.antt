-- ===== src/Base/Dict.antt =====
-- A `HashMap<Uuid, V>`: an association list with one entry for a key. A `Uuid` is its 128-bit
-- number.
use Prim.Native.Nat.{ℕ, ◌+◌, ◌≤◌}
use mathlib.Core.Path.{◌≡◌, refl}
use mathlib.Core.Logic.{◌≢◌}
use mathlib.Core.Option.{Option, none, some}
use mathlib.Core.List.{List, [], ◌∷◌}
use native.Mathlib.Omega.{arith}
use fatcrab_trading.Base.Tests.{◌==◌, if◌then◌else◌}

abbrev pub Uuid : Type 0
Uuid = ℕ

abbrev pub Dict {ℓ} : Type ℓ → Type ℓ
Dict V = List (Uuid × V)

module _ {ℓ} {V : Type ℓ} where
  abbrev pub get : Uuid → Dict V → Option V
  get k [] = none
  get k ((j, v) ∷ d) = if k == j then some v else get k d

  abbrev pub insert : Uuid → V → Dict V → Dict V
  insert k v [] = (k, v) ∷ []
  insert k v (e ∷ d) = if k == e.0 then (k, v) ∷ d else e ∷ insert k v d

  abbrev pub remove : Uuid → Dict V → Dict V
  remove k [] = []
  remove k (e ∷ d) = if k == e.0 then d else e ∷ remove k d

  -- No key stands twice.
  abbrev pub HasDistinctKeys : Dict V → Type ℓ
  HasDistinctKeys [] = Unit
  HasDistinctKeys ((k, v) ∷ d) = (get k d ≡ none) × HasDistinctKeys d

  pub get-insert :
      (j k : Uuid) (v : V) (d : Dict V)
      → get j (insert k v d) ≡ (if j == k then some v else get j d)
  get-insert j k v [] = ground arith
  get-insert j k v (e ∷ d) = ground (arith, get-insert j k v d)

  pub get-remove_ne : (j k : Uuid) (d : Dict V) → j ≢ k → get j (remove k d) ≡ get j d
  get-remove_ne j k [] h = refl
  get-remove_ne j k (e ∷ d) h = ground (arith, get-remove_ne j k d h)

  pub get-remove_self : (k : Uuid) (d : Dict V) → HasDistinctKeys d → get k (remove k d) ≡ none
  get-remove_self k [] h = refl
  get-remove_self k (e ∷ d) h = ground (arith, get-remove_self k d h.1)

  pub get-remove-none : (j k : Uuid) (d : Dict V) → get j d ≡ none → get j (remove k d) ≡ none
  get-remove-none j k [] h = refl
  get-remove-none j k (e ∷ d) h = ground (arith, get-remove-none j k d)

  pub insert-HasDistinctKeys :
      (k : Uuid) (v : V) (d : Dict V) → HasDistinctKeys d → HasDistinctKeys (insert k v d)
  insert-HasDistinctKeys k v [] h = (refl, tt)
  insert-HasDistinctKeys k v (e ∷ d) h =
      ground (arith, insert-HasDistinctKeys k v d h.1, get-insert e.0 k v d)

  pub remove-HasDistinctKeys :
      (k : Uuid) (d : Dict V) → HasDistinctKeys d → HasDistinctKeys (remove k d)
  remove-HasDistinctKeys k [] h = tt
  remove-HasDistinctKeys k (e ∷ d) h =
      ground (arith, remove-HasDistinctKeys k d h.1, get-remove-none e.0 k d h.0)

  -- Removing a key that is not there changes nothing.
  pub remove-eq_self : (k : Uuid) (d : Dict V) → get k d ≡ none → remove k d ≡ d
  remove-eq_self k [] h = refl
  remove-eq_self k (e ∷ d) h = ground (arith, remove-eq_self k d)

-- `extend`: the entries of `src`, put into `d`.
abbrev pub extend {ℓ} : {V : Type ℓ} → Dict V → Dict V → Dict V
extend [] d = d
extend ((k, v) ∷ src) d = extend src (insert k v d)

abbrev pub or_else {ℓ} : {A : Type ℓ} → Option A → Option A → Option A
or_else none o = o
or_else (some a) o = some a

module _ {ℓ} {V : Type ℓ} where
  pub get-extend :
      (j : Uuid) (src d : Dict V)
      → HasDistinctKeys src
      → get j (extend src d) ≡ or_else (get j src) (get j d)
  get-extend j [] d h = refl
  get-extend j ((k, v) ∷ src) d h =
      ground (arith, get-extend j src (insert k v d) h.1, get-insert j k v d)

  pub extend-HasDistinctKeys : (src d : Dict V) → HasDistinctKeys d → HasDistinctKeys (extend src d)
  extend-HasDistinctKeys [] d h = h
  extend-HasDistinctKeys ((k, v) ∷ src) d h =
      extend-HasDistinctKeys src (insert k v d) (insert-HasDistinctKeys k v d h)

-- The sum of the values, as an unbounded number.
abbrev pub sum : Dict ℕ → ℕ
sum [] = 0
sum ((k, v) ∷ d) = v + sum d

pub sum-insert_new : (k v : ℕ) (d : Dict ℕ) → get k d ≡ none → sum (insert k v d) ≡ sum d + v
sum-insert_new k v [] h = omega arith
sum-insert_new k v (e ∷ d) h = ground (arith, sum-insert_new k v d)

pub sum-remove : (k v : ℕ) (d : Dict ℕ) → get k d ≡ some v → sum (remove k d) + v ≡ sum d
sum-remove k v [] h = ground arith
sum-remove k v (e ∷ d) h = ground (arith, sum-remove k v d)

pub get-le-sum : (k v : ℕ) (d : Dict ℕ) → get k d ≡ some v → v ≤ sum d
get-le-sum k v [] h = ground arith
get-le-sum k v (e ∷ d) h = ground (arith, get-le-sum k v d)

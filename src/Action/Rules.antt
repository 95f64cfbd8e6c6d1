-- ===== src/Action/Rules.antt =====
-- Postconditions of methods: what holds of the state if the method returns.
use fatcrab_trading.Base.{⊤, List, [], ◌∷◌}
use fatcrab_trading.Action.{Action, Outcome, ret, raise, panic, ◌>>=◌, for_each}

abbrev pub Ensures : {S A : Type 0} → (A → S → Type 0) → Outcome S A → Type 0
Ensures P (ret a s) = P a s
Ensures P (raise e s) = ⊤
Ensures P (panic s) = ⊤

module _ {S A B : Type 0} (P : A → S → Type 0) (Q : B → S → Type 0) where
  pub >>=-Ensures :
      (m : Action S A) (k : A → Action S B) (s : S)
      → Ensures P (m s)
      → ((a : A) (t : S) → P a t → Ensures Q (k a t))
      → Ensures Q ((m >>= k) s)
  >>=-Ensures m k s h keep = go (m s) h
    where
      go :
          (o : Outcome S A)
          → Ensures P o
          → Ensures Q (elim o [ ret a t ↦ k a t | raise e t ↦ raise e t | panic t ↦ panic t ])
      go (ret a t) h = keep a t h
      go (raise e t) h = tt
      go (panic t) h = tt

-- The rule for a loop.
pub for_each-Ensures :
    {A S : Type 0} (P : S → Type 0) (body : A → Action S ⊤)
    → ((x : A) (s : S) → P s → Ensures (λ _ t. P t) (body x s))
    → (xs : List A) (s : S) → P s
    → Ensures (λ _ t. P t) (for_each body xs s)
unfolding for_each
for_each-Ensures P body keep [] s h = h
for_each-Ensures P body keep (x ∷ xs) s h =
    >>=-Ensures (λ _ t. P t) (λ _ t. P t) (body x) (λ _. for_each body xs) s (keep x s h)
      (λ _ t ht. for_each-Ensures P body keep xs t ht)

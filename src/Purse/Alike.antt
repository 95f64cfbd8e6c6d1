-- ===== src/Purse/Alike.antt =====
-- Two purses whose `HashMap` holds the same entries, in whatever order: what the actor's methods do with them.
use fatcrab_trading.Base.{
  if◌then◌else◌, ◌≡◌, ap, refl, subst, Bool, true, false, Option, none, some,
}
use fatcrab_trading.Base.Dict.{HasDistinctKeys}
use fatcrab_trading.Action.{
  fail, Action, Outcome, ret, raise, panic, pure, ◌>>=◌, gets, unwrap, or_throw, throw_if,
  unwrap_ok, or_convert, no_error, attempt, Result, ok, err,
}
use fatcrab_trading.Error.{FatCrabError, ExternalError}
use fatcrab_trading.Purse.{Purse}
use fatcrab_trading.Purse.Iteration.{Same}

-- Two purses that differ at most in the order of their entries.
pub record Alike (p q : Purse) : Type 0 where
  pub network : p.network ≡ q.network
  pub store_network : p.purse_data.store.network ≡ q.purse_data.store.network
  pub height : p.purse_data.store.height ≡ q.purse_data.store.height
  pub is_queued : p.purse_data.is_queued ≡ q.purse_data.is_queued
  pub sent : p.sent ≡ q.sent
  pub distinct : HasDistinctKeys p.purse_data.store.allocated_funds
  pub distinct_too : HasDistinctKeys q.purse_data.store.allocated_funds
  pub same : Same p.purse_data.store.allocated_funds q.purse_data.store.allocated_funds

-- The same result, and purses alike.
abbrev pub AreAlike : {A : Type 0} → Outcome Purse A → Outcome Purse A → Type 0
AreAlike (ret a p) (ret b q) = (a ≡ b) × Alike p q
AreAlike (raise e p) (raise x q) = (e ≡ x) × Alike p q
AreAlike (panic p) (panic q) = Alike p q
AreAlike _ _ = ⊥

-- The action gives the same result on purses that are alike.
pub record Respects {A : Type 0} (m : Action Purse A) : Type 0 where
  pub alike : (p q : Purse) → Alike p q → AreAlike (m p) (m q)

apply-Respects :
    {A B : Type 0} (f : A → Action Purse B) (a b : A) (p q : Purse)
    → ((a : A) → Respects (f a))
    → a ≡ b
    → Alike p q
    → AreAlike (f a p) (f b q)
apply-Respects f a b p q r e h = subst (λ x. AreAlike (f a p) (f x q)) e ((r a).alike p q h)

outcome-AreAlike :
    {A B : Type 0} (f : A → Action Purse B) (o o' : Outcome Purse A)
    → ((a : A) → Respects (f a))
    → AreAlike o o'
    → AreAlike
        (elim o [ ret a s ↦ f a s | raise e s ↦ raise e s | panic s ↦ panic s ])
        (elim o' [ ret a s ↦ f a s | raise e s ↦ raise e s | panic s ↦ panic s ])
outcome-AreAlike f (ret a p) (ret b q) r h = apply-Respects f a b p q r h.0 h.1
outcome-AreAlike f (raise e p) (raise x q) r h = h
outcome-AreAlike f (panic p) (panic q) r h = h
outcome-AreAlike f (ret a p) (raise x q) r h = absurd h
outcome-AreAlike f (ret a p) (panic q) r h = absurd h
outcome-AreAlike f (raise e p) (ret b q) r h = absurd h
outcome-AreAlike f (raise e p) (panic q) r h = absurd h
outcome-AreAlike f (panic p) (ret b q) r h = absurd h
outcome-AreAlike f (panic p) (raise x q) r h = absurd h

attempt-AreAlike :
    {A : Type 0} (o o' : Outcome Purse A)
    → AreAlike o o'
    → AreAlike
        (elim o [ ret a s ↦ ret (ok a) s | raise e s ↦ ret (err e) s | panic s ↦ panic s ])
        (elim o' [ ret a s ↦ ret (ok a) s | raise e s ↦ ret (err e) s | panic s ↦ panic s ])
attempt-AreAlike (ret a p) (ret b q) h = (ap ok h.0, h.1)
attempt-AreAlike (raise e p) (raise x q) h = (ap err h.0, h.1)
attempt-AreAlike (panic p) (panic q) h = h
attempt-AreAlike (ret a p) (raise x q) h = absurd h
attempt-AreAlike (ret a p) (panic q) h = absurd h
attempt-AreAlike (raise e p) (ret b q) h = absurd h
attempt-AreAlike (raise e p) (panic q) h = absurd h
attempt-AreAlike (panic p) (ret b q) h = absurd h
attempt-AreAlike (panic p) (raise x q) h = absurd h

module _ {A : Type 0} where
  pub pure-Respects : (a : A) → Respects (pure a)
  pure-Respects a = record { alike = λ p q h. (refl, h) }

  pub gets-Respects : (f : Purse → A) → ((p q : Purse) → Alike p q → f p ≡ f q) → Respects (gets f)
  gets-Respects f r = record { alike = λ p q h. (r p q h, h) }

  pub bind-Respects :
      {B : Type 0} (m : Action Purse B) (f : B → Action Purse A)
      → Respects m
      → ((b : B) → Respects (f b))
      → Respects (m >>= f)
  bind-Respects m f r s = record {
    alike = λ p q h. outcome-AreAlike f (m p) (m q) s (r.alike p q h);
  }

  pub attempt-Respects : (m : Action Purse A) → Respects m → Respects (attempt m)
  attempt-Respects m r = record { alike = λ p q h. attempt-AreAlike (m p) (m q) (r.alike p q h) }

  pub unwrap-Respects : (o : Option A) → Respects (unwrap o)
  unwrap-Respects none = record { alike = λ p q h. h }
  unwrap-Respects (some a) = record { alike = λ p q h. (refl, h) }

  pub unwrap_ok-Respects : {E : Type 0} (r : Result A E) → Respects (unwrap_ok r)
  unwrap_ok-Respects (ok a) = record { alike = λ p q h. (refl, h) }
  unwrap_ok-Respects (err e) = record { alike = λ p q h. h }

  pub or_throw-Respects : (o : Option A) (e : FatCrabError) → Respects (or_throw o e)
  or_throw-Respects none e = record { alike = λ p q h. (refl, h) }
  or_throw-Respects (some a) e = record { alike = λ p q h. (refl, h) }

  pub or_convert-Respects :
      (r : Result A ExternalError) (f : ExternalError → FatCrabError) → Respects (or_convert r f)
  or_convert-Respects (ok a) f = record { alike = λ p q h. (refl, h) }
  or_convert-Respects (err e) f = record { alike = λ p q h. (refl, h) }

pub no_error-Respects :
    (o : Option ExternalError) (f : ExternalError → FatCrabError) → Respects (no_error o f)
no_error-Respects none f = record { alike = λ p q h. (refl, h) }
no_error-Respects (some e) f = record { alike = λ p q h. (refl, h) }

pub fail-Respects : {A : Type 0} → Respects (fail {A = A})
fail-Respects = record { alike = λ p q h. h }

pub if-Respects :
    {A : Type 0} {m m' : Action Purse A} (b : Bool)
    → Respects m
    → Respects m'
    → Respects (if b then m else m')
if-Respects true r r' = r
if-Respects false r r' = r'

pub throw_if-Respects : (b : Bool) (e : FatCrabError) → Respects (throw_if b e)
throw_if-Respects true e = record { alike = λ p q h. (refl, h) }
throw_if-Respects false e = record { alike = λ p q h. (refl, h) }

-- ===== src/Action.antt =====
-- How a Rust method is read: it changes a state and returns a value, returns early with an error, or
-- panics. What was written before an early return or a panic stays written.
pub mod Rules
use fatcrab_trading.Error.{ExternalError, FatCrabError}
use fatcrab_trading.Base.{
  ℕ, ◌+◌, ◌-◌, ◌%◌, ◌^◌, ⊤, ◌≡◌, refl, ◌⊎◌, inl, inr, Bool, true, false, Option, none, some, List,
  [], ◌∷◌, ltb, leb, if◌then◌else◌,
}

pub data Result (A E : Type 0) : Type 0 where
  ok : A → Result A E
  err : E → Result A E

abbrev pub Fallible : Type 0 → Type 0
Fallible A = Result A FatCrabError

pub data Outcome (S A : Type 0) : Type 0 where
  ret : A → S → Outcome S A
  raise : FatCrabError → S → Outcome S A
  panic : S → Outcome S A

abbrev pub Action : Type 0 → Type 0 → Type 0
Action S A = S → Outcome S A

-- The state that a method leaves behind.
abbrev pub final : {S A : Type 0} → Outcome S A → S
final (ret a s) = s
final (raise e s) = s
final (panic s) = s

abbrev pub pure : {S A : Type 0} → A → Action S A
pure a s = ret a s

infixl 5 ◌>>=◌ ◌>>◌
abbrev pub ◌>>=◌ : {S A B : Type 0} → Action S A → (A → Action S B) → Action S B
◌>>=◌ m f s = elim (m s) [ ret a s' ↦ f a s' | raise e s' ↦ raise e s' | panic s' ↦ panic s' ]

abbrev pub ◌>>◌ : {S B : Type 0} → Action S ⊤ → Action S B → Action S B
m >> k = m >>= λ _. k

abbrev pub gets : {S A : Type 0} → (S → A) → Action S A
gets f s = ret (f s) s

abbrev pub modify : {S : Type 0} → (S → S) → Action S ⊤
modify f s = ret tt (f s)

-- `panic!`, and `unwrap` of what is not there.
abbrev pub fail : {S A : Type 0} → Action S A
fail s = panic s

abbrev pub unwrap : {S A : Type 0} → Option A → Action S A
unwrap none = fail
unwrap (some a) = pure a

abbrev pub unwrap_ok : {S A E : Type 0} → Result A E → Action S A
unwrap_ok (ok a) = pure a
unwrap_ok (err e) = fail

-- An early return of an error.
abbrev pub throw : {S A : Type 0} → FatCrabError → Action S A
throw e s = raise e s

abbrev pub or_throw : {S A : Type 0} → Option A → FatCrabError → Action S A
or_throw none e = throw e
or_throw (some a) e = pure a

-- `?` on a result.
abbrev pub propagate : {S A : Type 0} → Fallible A → Action S A
propagate (ok a) = pure a
propagate (err e) = throw e

-- `match` on the result of another crate's call, whose error is converted and returned.
abbrev pub or_convert :
    {S A : Type 0} → Result A ExternalError → (ExternalError → FatCrabError) → Action S A
or_convert (ok a) f = pure a
or_convert (err e) f = throw (f e)

-- The same for `call().err()`, where the good result carries nothing.
abbrev pub no_error :
    {S : Type 0} → Option ExternalError → (ExternalError → FatCrabError) → Action S ⊤
no_error none f = pure tt
no_error (some e) f = throw (f e)

-- The call's `Result`, as a value for the caller to look at.
abbrev pub attempt : {S A : Type 0} → Action S A → Action S (Fallible A)
attempt m s = elim (m s) [
  | ret a s' ↦ ret (ok a) s'
  | raise e s' ↦ ret (err e) s'
  | panic s' ↦ panic s'
]

abbrev pub throw_if : {S : Type 0} → Bool → FatCrabError → Action S ⊤
throw_if true e = throw e
throw_if false e = pure tt

abbrev pub when : {S : Type 0} → Bool → Action S ⊤ → Action S ⊤
when true m = m
when false m = pure tt

-- A `for` loop, whose body may return from the function.
unfoldable pub for_each : {A S : Type 0} → (A → Action S ⊤) → List A → Action S ⊤
for_each body [] = pure tt
for_each body (x ∷ xs) = body x >> for_each body xs

pub Result-cases :
    {A E : Type 0} (r : Result A E) → ((a : A) × (r ≡ ok a)) ⊎ ((e : E) × (r ≡ err e))
Result-cases (ok a) = inl (a, refl)
Result-cases (err e) = inr (e, refl)

abbrev pub u64_mod : ℕ
u64_mod = 2 ^ 64

-- `+` and `-` on u64 and u32: a build with overflow checks panics (`none`), one without wraps around.
abbrev pub add_u64 : Bool → ℕ → ℕ → Option ℕ
add_u64 checks a b =
    if ltb (a + b) u64_mod then some (a + b) else if checks then none else some ((a + b) % u64_mod)

abbrev pub u32_mod : ℕ
u32_mod = 2 ^ 32

abbrev pub add_u32 : Bool → ℕ → ℕ → Option ℕ
add_u32 checks a b =
    if ltb (a + b) u32_mod then some (a + b) else if checks then none else some ((a + b) % u32_mod)

abbrev pub sub_u64 : Bool → ℕ → ℕ → Option ℕ
sub_u64 checks a b =
    if leb b a then some (a - b) else if checks then none else some (a + u64_mod - b)

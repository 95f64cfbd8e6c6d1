-- ===== src/Trader/Recovery.antt =====
-- What a restart of the trader recovers from its directories.
use fatcrab_trading.Base.{
  String, Option, none, some, List, [], ◌∷◌, ◌≡◌, refl, subst, arith, true, ⊤, Option-cases, inl,
  inr,
}
use fatcrab_trading.Base.Dict.{
  Uuid, Dict, get, insert, HasDistinctKeys, insert-HasDistinctKeys, get-insert, extend, or_else,
  get-extend, extend-HasDistinctKeys,
}
use fatcrab_trading.Action.{Result, ok, Action, ret}
use fatcrab_trading.Error.{ExternalError}
use fatcrab_trading.Trader.{Task, spawn}
use fatcrab_trading.Trader.Restore.{spawn_all}
use fatcrab_trading.Trader.Directory.{DirEntry, Known, restore_entries, restore_entry}

abbrev pub select {ℓ} : {V A : Type ℓ} → (V → Option A) → Option V → Option A
select f none = none
select f (some v) = f v

-- What is restored of a dictionary.
module _ {V A : Type 0} (chosen : V → Option A) where
  abbrev pub choose : Dict V → Dict A → Dict A
  choose [] acc = acc
  choose ((k, v) ∷ d) acc = elim (chosen v) [
    | none ↦ choose d acc
    | some a ↦ choose d (insert k a acc)
  ]

  pub get-choose :
      (j : Uuid) (d : Dict V) (acc : Dict A)
      → HasDistinctKeys d
      → get j (choose d acc) ≡ or_else (select chosen (get j d)) (get j acc)
  get-choose j [] acc h = refl
  get-choose j ((k, v) ∷ d) acc h = elim (Option-cases (chosen v)) [
    | inl n ↦ ground (arith, get-choose j d acc h.1)
    | inr (a, n) ↦ ground (arith, get-choose j d (insert k a acc) h.1, get-insert j k a acc)
  ]

  pub choose-HasDistinctKeys :
      (d : Dict V) (acc : Dict A) → HasDistinctKeys acc → HasDistinctKeys (choose d acc)
  choose-HasDistinctKeys [] acc h = h
  choose-HasDistinctKeys ((k, v) ∷ d) acc h = elim (Option-cases (chosen v)) [
    | inl n ↦ ground (arith, choose-HasDistinctKeys d acc h)
    | inr (a, n) ↦
        ground (arith, choose-HasDistinctKeys d (insert k a acc) (insert-HasDistinctKeys k a acc h))
  ]

-- The log after the chosen actors were restored.
abbrev pub notes : {L V A : Type 0} → (V → Option A) → (A → L → L) → Dict V → L → L
notes chosen note [] l = l
notes chosen note ((k, v) ∷ d) l = elim (chosen v) [
  | none ↦ notes chosen note d l
  | some a ↦ notes chosen note d (note a l)
]

-- The files of the trades of one kind: those of `d` that `chosen` gives a restored actor for.
module _ {V A : Type 0} (print : Uuid → String) (file : Uuid → Option String)
    (chosen : V → Option A) where
  abbrev pub files : Dict V → List (Result DirEntry ExternalError)
  files [] = []
  files ((k, v) ∷ d) = elim (chosen v) [
    | none ↦ files d
    | some a ↦ ok (record { file_stem = some (some (print k)); text = file k }) ∷ files d
  ]

-- `note` is what restoring an actor leaves in the log of a state, which is `at` that log.
module _ {S L V A : Type 0} (known : Known) (restore_actor : Option String → Action S A)
    (at : L → S) (note : A → L → L) (print : Uuid → String) (file : Uuid → Option String)
    (chosen : V → Option A) where
  abbrev IsRestorable : Uuid → Option A → Type 0
  IsRestorable k none = ⊤
  IsRestorable k (some a) =
      (known.parse_uuid (print k) ≡ some k)
      × (known.is_known k ≡ true)
      × ((l : L) → restore_actor (file k) (at l) ≡ ret a (at (note a l)))

  -- Every file is that of a trade that the n3xb manager has, and restores the chosen actor.
  abbrev pub AreRestorable : Dict V → Type 0
  AreRestorable [] = ⊤
  AreRestorable ((k, v) ∷ d) = IsRestorable k (chosen v) × AreRestorable d

  files_step :
      (k : Uuid) (v : V) (d : Dict V) (acc : Dict A) (l : L)
      → AreRestorable ((k, v) ∷ d)
      → ((acc : Dict A) (l : L)
          → restore_entries known restore_actor (files print file chosen d) acc (at l)
            ≡ ret (choose chosen d acc) (at (notes chosen note d l)))
      → (o : Option A) → chosen v ≡ o
      → restore_entries known restore_actor (files print file chosen ((k, v) ∷ d)) acc (at l)
        ≡ ret (choose chosen ((k, v) ∷ d) acc) (at (notes chosen note ((k, v) ∷ d) l))
  unfolding restore_entries restore_entry
  files_step k v d acc l h ih none e = ground (arith, ih acc l)
  files_step k v d acc l h ih (some a) e =
      let restorable : IsRestorable k (some a) = subst (IsRestorable k) e h.0 in
      ground (arith, restorable.2 l, ih (insert k a acc) (note a l))

  pub restore_entries-files :
      (d : Dict V) (acc : Dict A) (l : L)
      → AreRestorable d
      → restore_entries known restore_actor (files print file chosen d) acc (at l)
        ≡ ret (choose chosen d acc) (at (notes chosen note d l))
  unfolding restore_entries restore_entry
  restore_entries-files [] acc l h = refl
  restore_entries-files ((k, v) ∷ d) acc l h =
      files_step k v d acc l h (λ a l. restore_entries-files d a l h.1) (chosen v) refl

abbrev pub mapped : {V W : Type 0} → (V → W) → Option V → Option W
mapped f = select (λ v. some (f v))

module _ {T : Type 0} (E : Type 0) where
  get-spawn_all :
      (j : Uuid) (d : Dict T) → get j (spawn_all {E = E} d) ≡ mapped (spawn {E = E}) (get j d)
  get-spawn_all j [] = refl
  get-spawn_all j ((k, a) ∷ d) = ground (arith, get-spawn_all j d)

  spawn_all-HasDistinctKeys :
      (d : Dict T) → HasDistinctKeys d → HasDistinctKeys (spawn_all {E = E} d)
  spawn_all-HasDistinctKeys [] h = tt
  spawn_all-HasDistinctKeys ((k, a) ∷ d) h =
      ground (arith, spawn_all-HasDistinctKeys d h.1, get-spawn_all k d)

-- The dictionary that `chain`, `collect` and `extend` make of the two restored ones.
module _ {V T : Type 0} (E : Type 0) (buy sell : V → Option T) where
  abbrev pub together : Dict V → Dict (Task T E)
  together d = extend (spawn_all (extend (choose sell d []) (extend (choose buy d []) []))) []

  pub get-together :
      (j : Uuid) (d : Dict V)
      → HasDistinctKeys d
      → get j (together d)
        ≡ mapped (spawn {E = E}) (or_else (select sell (get j d)) (select buy (get j d)))
  get-together j d h =
      let sells = choose sell d [] in
      let buys = extend (choose buy d []) [] in
      let all = extend sells buys in
      let distinct_buys = extend-HasDistinctKeys (choose buy d []) [] tt in
      ground (
        arith,
        get-extend j (spawn_all {E = E} all) []
            (spawn_all-HasDistinctKeys E all (extend-HasDistinctKeys sells buys distinct_buys)),
        get-spawn_all E j all,
        get-extend j sells buys (choose-HasDistinctKeys sell d [] tt),
        get-extend j (choose buy d []) [] (choose-HasDistinctKeys buy d [] tt),
        get-choose buy j d [] h,
        get-choose sell j d [] h,
      )

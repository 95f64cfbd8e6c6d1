-- ===== src/Actor.antt =====
-- What the maker and taker actors of src/maker and src/taker have in common: an actor runs on its
-- own state, the purse that it calls, and a log of what it has told the outside.
use fatcrab_trading.Base.{ℕ, ⊤, Bool, true, false, String, Option, none, some, List, ◌∷◌}
use fatcrab_trading.Base.Dict.{Uuid}
use fatcrab_trading.Action.{Action, ret, raise, panic, pure, propagate, fail, modify, ◌>>=◌, ◌>>◌}
use fatcrab_trading.Persist.{restore}
use fatcrab_trading.Persist.Types.{Json}
use fatcrab_trading.Error.{ExternalError, FatCrabError, n3xb}
use fatcrab_trading.Common.{Network}
use fatcrab_trading.Purse.{Purse}

-- `self` is the actor, `out` its log, the latest entry first.
pub record Ctx (T E : Type 0) : Type 0 where
  pub self : T
  pub purse : Purse
  pub out : List E

-- A data store behind its lock. `is_queued`: no write since the persister was last queued, or since
-- the store was read from its file.
pub record Persisted (Store : Type 0) : Type 0 where
  pub store : Store
  pub is_queued : Bool
  pub network : Network

abbrev pub written : {Store : Type 0} → (Store → Store) → Persisted Store → Persisted Store
written f d = record d { store = f d.store; is_queued = false }

-- `restore` of a data store: nothing of it is unsaved, and the persister is not queued.
unfoldable pub restored :
    {S Store : Type 0}
    → Json Store
    → (Store → Uuid)
    → Network
    → Option String
    → Action S (Uuid × Persisted Store)
restored json trade_uuid network file = do
  store ← propagate (restore json file)
  pure (trade_uuid store, record { store = store; is_queued = true; network = network })

abbrev pub queued : {Store : Type 0} → Persisted Store → Persisted Store
queued d = record d { is_queued = true }

-- The sending end of an application's channel, by its number.
abbrev pub Channel : Type 0
Channel = ℕ

module _ {T E : Type 0} where
  abbrev pub update_self : (T → T) → Action (Ctx T E) ⊤
  update_self f = modify (λ c. record c { self = f c.self })

  abbrev pub emit : E → Action (Ctx T E) ⊤
  emit x = modify (λ c. record c { out = x ∷ c.out })

  -- A send to a receiver, `unwrap`ped: it panics where the receiver is gone.
  abbrev pub send_to : Bool → E → Action (Ctx T E) ⊤
  send_to true x = emit x
  send_to false x = fail

  -- A request to the purse's actor, whose panic reaches the caller through the dropped reply.
  abbrev pub call_purse : {A : Type 0} → Action Purse A → Action (Ctx T E) A
  call_purse m c = elim (m c.purse) [
    | ret a p ↦ ret a (record c { purse = p })
    | raise e p ↦ raise e (record c { purse = p })
    | panic p ↦ panic (record c { purse = p })
  ]

  -- A call of the n3xb crate: it is logged, and its error is converted.
  abbrev pub n3xb_result : Option ExternalError → Action (Ctx T E) ⊤
  n3xb_result none c = ret tt c
  n3xb_result (some e) c = raise (n3xb e) c

  abbrev pub call_n3xb : E → Option ExternalError → Action (Ctx T E) ⊤
  call_n3xb x result = emit x >> n3xb_result result

  -- A method of a part of the actor: `put` writes the part back.
  abbrev pub zoom : {U A : Type 0} → (T → U → U) → T → Action (Ctx T E) A → Action (Ctx U E) A
  zoom put part m c = elim (m (record { self = part; purse = c.purse; out = c.out })) [
    | ret a d ↦ ret a (record { self = put d.self c.self; purse = d.purse; out = d.out })
    | raise e d ↦ raise e (record { self = put d.self c.self; purse = d.purse; out = d.out })
    | panic d ↦ panic (record { self = put d.self c.self; purse = d.purse; out = d.out })
  ]

-- `unwrap` of a call's result.
abbrev pub must : {S A : Type 0} → Action S A → Action S A
must m s = elim (m s) [ ret a t ↦ ret a t | raise e t ↦ panic t | panic t ↦ panic t ]

-- `map_err`.
abbrev pub rethrow : {S A : Type 0} → (FatCrabError → FatCrabError) → Action S A → Action S A
rethrow f m s = elim (m s) [ ret a t ↦ ret a t | raise e t ↦ raise (f e) t | panic t ↦ panic t ]

-- An error that ends a handler is sent as its reply.
abbrev pub catch : {S : Type 0} → (FatCrabError → Action S ⊤) → Action S ⊤ → Action S ⊤
catch k m s = elim (m s) [ ret a t ↦ ret tt t | raise e t ↦ k e t | panic t ↦ panic t ]

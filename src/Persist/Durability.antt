-- ===== src/Persist/Durability.antt =====
-- What the file holds, over every interleaving of the owner and the thread.
use fatcrab_trading.Base.{true, false, String, Option, none, some, ◌≡◌, arith, is_some, ◌⊎◌}
use fatcrab_trading.Action.{Result, ok, err}
use fatcrab_trading.Error.{ExternalError}
use fatcrab_trading.Persist.Types.{Persister, PersisterMsg, close, saving, exited, Json, Label}
use fatcrab_trading.Persist.{
  step, Reachable, here, next, started, restore, try_send, send_close, recv, persist, terminate,
}

abbrev pub text_of : Result String ExternalError → Option String
text_of (ok text) = some text
text_of (err e) = none

module _ {Store : Type 0} (json : Json Store) where
  -- The file is the store's text.
  abbrev pub IsDurable : Persister Store → Type 0
  IsDurable p = (text_of (json.to_string p.store) ≡ p.file) × (is_some p.file ≡ true)

  -- A save of what the store holds is still to come.
  abbrev IsPending : Persister Store → Type 0
  IsPending p = (p.phase ≡ saving) ⊎ (p.slot ≡ some PersisterMsg.persist)

  pub record IsOrderly (p : Persister Store) : Type 0 where
    pub saved : p.is_queued ≡ true → p.has_failed ≡ false → IsDurable p ⊎ IsPending p
    pub closing : p.slot ≡ some close → p.is_closed ≡ true
    pub dropping : p.is_dropped ≡ true → p.is_closed ≡ true
    pub finished : p.phase ≡ exited → (p.is_closed ≡ true) × (p.slot ≡ none)

  step-IsOrderly :
      (l : Label Store) (p p' : Persister Store)
      → IsOrderly p
      → step json l p ≡ some p'
      → IsOrderly p'
  unfolding step persist try_send send_close recv
  step-IsOrderly (Label.write f) p p' h s = ground arith
  step-IsOrderly Label.queue p p' h s = ground arith
  step-IsOrderly Label.send_close p p' h s = ground arith
  step-IsOrderly Label.drop p p' h s = ground arith
  step-IsOrderly Label.recv p p' h s = ground arith
  step-IsOrderly (Label.save written left) p p' h s = ground arith

  Reachable-IsOrderly :
      (store : Store) (file : Option String) (p : Persister Store)
      → Reachable json (started store file) p
      → IsOrderly p
  Reachable-IsOrderly store file p here = ground arith
  Reachable-IsOrderly store file p (next {p = q} l r s) =
      step-IsOrderly l q p (Reachable-IsOrderly store file q r) s

  -- Once the thread has ended, the file holds the store, in every interleaving: provided that the
  -- owner queued after its last write, and that the last save did not fail.
  pub exited-IsDurable :
      (store : Store) (file : Option String) (p : Persister Store)
      → Reachable json (started store file) p
      → p.phase ≡ exited
      → p.is_queued ≡ true
      → p.has_failed ≡ false
      → IsDurable p
  exited-IsDurable store file p r e q f =
      let h = Reachable-IsOrderly store file p r in ground (arith, h.saved, h.finished)

  -- `terminate` returned, the thread has ended, and `restore` reads the store that it was given.
  abbrev pub Restores : Store → Option (Persister Store) → Type 0
  Restores store none = ⊥
  Restores store (some q) = (q.phase ≡ exited) × (restore json q.file ≡ ok store)

  -- The owner that queued after its last write, and then terminates the persister, gets back from
  -- `terminate` (it does not wait for ever), and the next start restores the store as it was. This
  -- is so from every state that the two can reach, where `serde_json` reads back what it wrote, and
  -- the store has a text, and no write of the file fails.
  pub terminate-Restores :
      (store : Store) (file : Option String) (p : Persister Store) (text : String)
      → Reachable json (started store file) p
      → p.is_closed ≡ false
      → p.is_queued ≡ true
      → p.has_failed ≡ false
      → json.to_string p.store ≡ ok text
      → json.from_str text ≡ ok p.store
      → Restores p.store (terminate json p)
  unfolding terminate restore
  terminate-Restores store file p text r open_ q f to from =
      let h = Reachable-IsOrderly store file p r in
      ground (arith, h.saved, h.finished, h.closing, h.dropping)

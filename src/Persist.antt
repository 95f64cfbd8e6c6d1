-- ===== src/Persist.antt =====
-- src/persist/std.rs: the thread that saves a data store to its file. The owner of the store writes
-- it and queues a message in a channel of size 1; the thread takes the message, and writes the file
-- under the store's read lock. The two run side by side: an interleaving is a list of labels.
-- `serde_json` is a parameter.
pub mod Types
pub mod Durability
pub mod Tokio
mod Tests
use fatcrab_trading.Base.{Bool, true, false, String, Option, none, some, List, [], ◌∷◌, ◌≡◌}
use fatcrab_trading.Action.{Result, ok, err, Fallible}
use fatcrab_trading.Error.{FatCrabError, ExternalError, serdes_json, io}
use Types.{PersisterMsg, Phase, receiving, saving, exited, Json, Persister, Label}

sent : Phase → Option PersisterMsg → Option PersisterMsg
sent Phase.exited slot = slot
sent _ none = some PersisterMsg.persist
sent _ (some m) = some m

module _ {Store : Type 0} where
  -- `try_send`: a full channel, or one whose receiver is gone, is passed over.
  unfoldable pub try_send : Persister Store → Persister Store
  unfolding sent
  try_send p = record p { slot = sent p.phase p.slot; is_queued = true }

  -- `send` waits while the channel is full.
  unfoldable pub send_close : Persister Store → Option (Persister Store)
  send_close p = elim p.slot [
    | none ↦ some (record p { slot = some PersisterMsg.close; is_closed = true })
    | some m ↦ none
  ]

  -- The owner is gone without a `terminate`, and with it the sender.
  abbrev pub drop : Persister Store → Persister Store
  drop p = record p { is_closed = true; is_dropped = true }

  received : PersisterMsg → Persister Store → Persister Store
  received PersisterMsg.persist p = record p { slot = none; phase = Phase.saving }
  received PersisterMsg.close p = record p { slot = none; phase = Phase.exited }

  -- Without a sender `recv` is an error on the empty channel, and the loop ends.
  no_message : Bool → Persister Store → Option (Persister Store)
  no_message false p = none
  no_message true p = some (record p { phase = Phase.exited })

  unfoldable pub recv : Persister Store → Option (Persister Store)
  unfolding received no_message
  recv p = elim p.phase [
    | Phase.receiving ↦ elim p.slot [
      | none ↦ no_message p.is_dropped p
      | some m ↦ some (received m p)
    ]
    | Phase.saving ↦ none
    | Phase.exited ↦ none
  ]

-- `persist`: the store is turned into a text, which becomes the file's.
unfoldable pub persist :
    {Store : Type 0} → Json Store → Option ExternalError → Store → Fallible String
persist json written store = elim (json.to_string store) [
  | err e ↦ err (serdes_json e)
  | ok text ↦ elim written [ none ↦ ok text | some e ↦ err (io e) ]
]

-- `Persister::restore`, and the parsing of the text by the data's own `restore`.
unfoldable pub restore : {Store : Type 0} → Json Store → Option String → Fallible Store
restore json none = err (io "No such file or directory")
restore json (some text) = elim (json.from_str text) [ ok s ↦ ok s | err e ↦ err (serdes_json e) ]

module _ {Store : Type 0} (json : Json Store) where
  -- An error is logged, and the loop goes on.
  persisted : Option String → Fallible String → Persister Store → Persister Store
  persisted left (ok text) p = record p { file = some text; phase = receiving; has_failed = false }
  persisted left (err (io e)) p = record p { file = left; phase = receiving; has_failed = true }
  persisted left (err e) p = record p { phase = receiving; has_failed = true }

  save : Option ExternalError → Option String → Persister Store → Option (Persister Store)
  unfolding persist persisted
  save written left p = elim p.phase [
    | Phase.receiving ↦ none
    | Phase.saving ↦ some (persisted left (persist json written p.store) p)
    | Phase.exited ↦ none
  ]

  -- What the owner does with the store, until it terminates the persister.
  owner : Bool → Label Store → Persister Store → Option (Persister Store)
  unfolding try_send send_close
  owner false (Label.write f) p = some (record p { store = f p.store; is_queued = false })
  owner false Label.queue p = some (try_send p)
  owner false Label.send_close p = send_close p
  owner false Label.drop p = some (drop p)
  owner _ _ p = none

  -- A step of the two, where it can be taken.
  unfoldable pub step : Label Store → Persister Store → Option (Persister Store)
  unfolding recv save owner
  step Label.recv p = recv p
  step (Label.save written left) p = save written left p
  step l p = owner p.is_closed l p

  -- The thread's next step, where `fs::write` succeeds and the owner does nothing.
  thread : Persister Store → Persister Store
  unfolding recv save
  thread p = elim p.phase [
    | Phase.receiving ↦ elim (recv p) [ none ↦ p | some q ↦ q ]
    | Phase.saving ↦ elim (save none none p) [ none ↦ p | some q ↦ q ]
    | Phase.exited ↦ p
  ]

  -- `Persister::terminate`: the `send` waits for the thread to empty the channel, which takes three
  -- steps at most, and the `join` for its end.
  unfoldable pub terminate : Persister Store → Option (Persister Store)
  unfolding thread send_close
  terminate p = elim (send_close (thread (thread (thread p)))) [
    | none ↦ none
    | some q ↦ some (thread q)
  ]

  -- The states that an interleaving leads to.
  pub data Reachable (start : Persister Store) : Persister Store → Type 0 where
    here : Reachable start start
    next :
        {p p' : Persister Store} (l : Label Store)
        → Reachable start p
        → step l p ≡ some p'
        → Reachable start p'

-- `setup_persistence`: a thread that waits for its first message.
abbrev pub started : {Store : Type 0} → Store → Option String → Persister Store
started store file = record {
  store = store;
  file = file;
  slot = none;
  phase = receiving;
  is_queued = false;
  is_closed = false;
  is_dropped = false;
  has_failed = false;
}

-- ===== src/Persist/Types.antt =====
-- src/persist/mod.rs and src/persist/std.rs: the message, the state of the persister with its thread,
-- and the steps that the two can take.
use fatcrab_trading.Base.{Bool, String, Option}
use fatcrab_trading.Action.{Result}
use fatcrab_trading.Error.{ExternalError}

pub data PersisterMsg : Type 0 where
  persist close : PersisterMsg

-- Where the thread stands: before `recv`, after it took a `Persist`, or past the loop.
pub data Phase : Type 0 where
  receiving saving exited : Phase

pub record Json (Store : Type 0) : Type 0 where
  pub to_string : Store → Result String ExternalError
  pub from_str : String → Result Store ExternalError

-- `slot` is the channel. `is_queued`: `queue` was called after the last write of the store.
-- `is_closed`: `terminate` has taken the persister, or it was dropped without, which is `is_dropped`.
-- `has_failed`: the last save did.
pub record Persister (Store : Type 0) : Type 0 where
  pub store : Store
  pub file : Option String
  pub slot : Option PersisterMsg
  pub phase : Phase
  pub is_queued : Bool
  pub is_closed : Bool
  pub is_dropped : Bool
  pub has_failed : Bool

pub data Label (Store : Type 0) : Type 0 where
  write : (Store → Store) → Label Store
  queue send_close drop recv : Label Store
  -- With the answer of `fs::write`, and what is in the file where it fails.
  save : Option ExternalError → Option String → Label Store

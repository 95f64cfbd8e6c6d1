-- ===== src/Trader/Directory.antt =====
-- src/trader.rs: the directories that hold the files of the trades, and the restoring of each file.
-- The four loops over the makers and takers of buy and sell orders are instances of this one.
use fatcrab_trading.Base.{Bool, true, false, String, Option, none, some, List, [], ◌∷◌}
use fatcrab_trading.Base.Dict.{Uuid, Dict, insert}
use fatcrab_trading.Action.{Result, ok, err, Action, pure, throw, ◌>>=◌, ◌>>◌, no_error}
use fatcrab_trading.Error.{ExternalError, io}
use fatcrab_trading.Actor.{must}

-- `file_stem()`: there may be none, or one that is no text. `text` is what reading the file gives.
pub record DirEntry : Type 0 where
  pub file_stem : Option (Option String)
  pub text : Option String

-- What `create_dir_all` and `read_dir` answer; an entry of the iteration may be an error.
pub record Directory : Type 0 where
  pub create_dir_all : Option ExternalError
  pub read_dir : Result (List (Result DirEntry ExternalError)) ExternalError

-- `parse_str` of a `Uuid`, and the trades that the n3xb manager has an accessor for.
pub record Known : Type 0 where
  pub parse_uuid : String → Option Uuid
  pub is_known : Uuid → Bool

pub insert_found : {A : Type 0} → Option (Uuid × A) → Dict A → Dict A
insert_found none d = d
insert_found (some (uuid, a)) d = insert uuid a d

module _ {S A : Type 0} (known : Known) (restore_actor : Option String → Action S A) where
  restore_known : Uuid → Option String → Bool → Action S (Option (Uuid × A))
  restore_known uuid file true = do actor ← must (restore_actor file); pure (some (uuid, actor))
  restore_known uuid file false = pure none

  restore_uuid : Option Uuid → Option String → Action S (Option (Uuid × A))
  unfolding restore_known
  restore_uuid none file = pure none
  restore_uuid (some uuid) file = restore_known uuid file (known.is_known uuid)

  restore_stem : Option (Option String) → Option String → Action S (Option (Uuid × A))
  unfolding restore_uuid
  restore_stem (some (some stem)) file = restore_uuid (known.parse_uuid stem) file
  restore_stem _ file = pure none

  -- A file that is no trade's, or that of a trade which the n3xb manager does not have, is passed
  -- over; one that cannot be restored panics.
  unfoldable pub restore_entry : DirEntry → Action S (Option (Uuid × A))
  unfolding restore_stem
  restore_entry entry = restore_stem entry.file_stem entry.text

  unfoldable pub restore_entries : List (Result DirEntry ExternalError) → Dict A → Action S (Dict A)
  unfolding restore_entry insert_found
  restore_entries [] actors = pure actors
  restore_entries (err e ∷ entries) actors = throw (io e)
  restore_entries (ok entry ∷ entries) actors = do
    found ← restore_entry entry
    restore_entries entries (insert_found found actors)

  unfoldable pub restore_listed :
      Result (List (Result DirEntry ExternalError)) ExternalError → Action S (Dict A)
  restore_listed (err e) = throw (io e)
  restore_listed (ok entries) = restore_entries entries []

  unfoldable pub restore_directory : Directory → Action S (Dict A)
  unfolding restore_listed
  restore_directory dir = do no_error dir.create_dir_all io; restore_listed dir.read_dir

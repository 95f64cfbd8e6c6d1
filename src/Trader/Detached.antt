-- ===== src/Trader/Detached.antt =====
-- src/trader.rs: a start whose last directory of trades cannot be read.
use fatcrab_trading.Base.{
  ⊤, Bool, true, false, Option, none, some, List, [], ◌∷◌, ◌||◌, is_some, ◌≡◌, ◌⊎◌, inl, inr, refl,
  arith, Option-cases,
}
use fatcrab_trading.Base.Dict.{Uuid, Dict, get}
use fatcrab_trading.Action.{Result, ok, err, Outcome, ret, raise, panic}
use fatcrab_trading.Trader.{FatCrabTrader}
use fatcrab_trading.Trader.Construction.{empty}
use fatcrab_trading.Trader.Directory.{Directory, restore_directory, restore_listed}
use fatcrab_trading.Trader.Recovery.{select, notes}
use fatcrab_trading.Trader.Restart.{
  restore_buy_makers-files, restore_sell_makers-files, restore_buy_takers-files,
}
use fatcrab_trading.Trader.Restore
use fatcrab_trading.Trader.Restore.{
  TradeJson, TradeDirs, Spawning, restore_sell_takers, restore_dirs, restore_maker_takers,
}
use fatcrab_trading.Trader.Saved.{
  Disk, AreSavedMakers, AreSavedTakers, dirs_of, chosen_buy_maker, chosen_sell_maker,
  chosen_buy_taker,
}

abbrev is_err : {A E : Type 0} → Result A E → Bool
is_err (ok a) = false
is_err (err e) = true

-- The directory cannot be made, or not be listed.
abbrev pub is_shut : Directory → Bool
is_shut dir = is_some dir.create_dir_all || is_err dir.read_dir

-- The actor, if there is one, is among the tasks.
abbrev pub Runs : {A : Type 0} → Option A → List A → Type 0
Runs none l = ⊤
Runs (some a) [] = ⊥
Runs (some a) (x ∷ l) = (a ≡ x) ⊎ Runs (some a) l

module _ {V A : Type 0} (chosen : V → Option A) where
  Runs-notes :
      (o : Option A) (d : Dict V) (l : List A) → Runs o l → Runs o (notes chosen (λ a l. a ∷ l) d l)
  Runs-notes none d l h = tt
  Runs-notes (some a) [] l h = h
  Runs-notes (some a) ((k, v) ∷ d) l h = elim (Option-cases (chosen v)) [
    | inl n ↦ ground (arith, Runs-notes (some a) d l h)
    | inr (b, n) ↦ ground (arith, Runs-notes (some a) d (b ∷ l) (inr h))
  ]

  notes-Runs :
      (j : Uuid) (d : Dict V) (l : List A)
      → Runs (select chosen (get j d)) (notes chosen (λ a l. a ∷ l) d l)
  notes-Runs j [] l = tt
  notes-Runs j ((k, v) ∷ d) l = elim (Option-cases (chosen v)) [
    | inl n ↦ ground (arith, notes-Runs j d l)
    | inr (b, n) ↦ ground (arith, notes-Runs j d (b ∷ l), Runs-notes (some b) d (b ∷ l) (inl refl))
  ]

module _ (json : TradeJson) (disk : Disk) (t : FatCrabTrader) (shut : Directory) where
  abbrev FailsAt : Spawning → Outcome Spawning Restore.Takers → Type 0
  FailsAt s (ret a s') = ⊥
  FailsAt s (raise e s') = s' ≡ s
  FailsAt s (panic s') = ⊥

  restore_sell_takers-FailsAt :
      (s : Spawning)
      → is_shut shut ≡ true
      → FailsAt s (restore_sell_takers json disk.n3xb_makers disk.n3xb_takers shut s)
  unfolding restore_sell_takers restore_directory restore_listed
  restore_sell_takers-FailsAt s h = ground arith

  -- The trader has no trade, and the actors of the trade run on.
  abbrev pub Detaches : Uuid → Outcome FatCrabTrader Spawning → Type 0
  Detaches j (ret s t') =
      (t' ≡ empty t.purse)
      × Runs (select (chosen_buy_maker t.purse.network) (get j t.makers)) s.makers
      × Runs (select (chosen_sell_maker t.purse.network) (get j t.makers)) s.makers
      × Runs (select (chosen_buy_taker t.purse.network) (get j t.takers)) s.takers
  Detaches j (raise e t') = ⊥
  Detaches j (panic t') = ⊥

  -- If the files of all trades are as the trader had saved them, but the last of the four directories, that
  -- of the takers of sell orders, cannot be made or listed, then the start goes on with a trader that has
  -- no trade at all. The actors of every maker, and of every taker of a buy order, with the stores that
  -- they had, were spawned before that and run on, in no map of the trader.
  pub restore-Detaches :
      (j : Uuid)
      → is_shut shut ≡ true
      → AreSavedMakers json disk t.makers
      → AreSavedTakers json disk t.takers
      → Detaches j (
          Restore.restore json disk.n3xb_makers disk.n3xb_takers
            (record (dirs_of disk t.purse.network t) { sell_takers = shut })
            (empty t.purse))
  unfolding Restore.restore restore_maker_takers restore_dirs
  restore-Detaches j closed sm st =
      let p = t.purse in
      let buy = chosen_buy_maker p.network in
      let sell = chosen_sell_maker p.network in
      let buys = notes buy (λ a l. a ∷ l) t.makers [] in
      let makers = notes sell (λ a l. a ∷ l) t.makers buys in
      let takers = notes (chosen_buy_taker p.network) (λ a l. a ∷ l) t.takers [] in
      ground (
        arith,
        restore_buy_makers-files json disk p [] t.makers [] sm,
        restore_sell_makers-files json disk p [] t.makers buys sm,
        restore_buy_takers-files json disk p makers t.takers [] st,
        restore_sell_takers-FailsAt (record { purse = p; makers = makers; takers = takers }) closed,
        notes-Runs sell j t.makers buys,
        Runs-notes sell (select buy (get j t.makers)) t.makers buys (notes-Runs buy j t.makers []),
        notes-Runs (chosen_buy_taker p.network) j t.takers [],
      )

-- ===== src/Trader/Restart.antt =====
-- src/trader.rs: a trader that was shut down and starts again.
use fatcrab_trading.Base.{List, [], ◌∷◌, ◌≡◌, arith}
use fatcrab_trading.Base.Dict.{Uuid, Dict, get, HasDistinctKeys}
use fatcrab_trading.Action.{Outcome, ret}
use fatcrab_trading.Actor.{restored}
use fatcrab_trading.Maker
use fatcrab_trading.Taker
use fatcrab_trading.Purse.{Purse}
use fatcrab_trading.Trader.{FatCrabTrader}
use fatcrab_trading.Trader.Directory.{restore_directory, restore_listed}
use fatcrab_trading.Trader.Restore
use fatcrab_trading.Trader.Restore.{
  TradeJson, Spawning, begin, spawn_restored_maker, spawn_restored_taker, spawn_all, restore_dirs,
  restore_maker_takers,
}
use fatcrab_trading.Trader.Construction.{empty}
use fatcrab_trading.Trader.Recovery.{
  choose, notes, mapped, get-together, files, AreRestorable, restore_entries-files,
}
use fatcrab_trading.Trader.Saved.{
  MakerTask, TakerTask, Disk, AreSavedMakers, AreSavedTakers, found, dirs_of, chosen_buy_maker,
  chosen_sell_maker, chosen_buy_taker, chosen_sell_taker, restarted_maker, restarted_taker,
}

module _ (json : TradeJson) (disk : Disk) (p : Purse) where
  -- The states of the restoring, by their makers or by their takers.
  abbrev pub with_maker_log : List Taker.FatCrabTakerActor → List Maker.FatCrabMakerActor → Spawning
  with_maker_log takers makers = record { purse = p; makers = makers; takers = takers }

  abbrev pub with_taker_log : List Maker.FatCrabMakerActor → List Taker.FatCrabTakerActor → Spawning
  with_taker_log makers takers = record { purse = p; makers = makers; takers = takers }

  buy_makers-AreRestorable :
      (other : List Taker.FatCrabTakerActor) (d : Dict MakerTask)
      → AreSavedMakers json disk d
      → AreRestorable disk.n3xb_makers
          (λ file. spawn_restored_maker (Maker.Restore.restore_buy_actor json.buy_maker file))
          (with_maker_log other)
          (λ a l. a ∷ l)
          disk.print
          disk.maker_file
          (chosen_buy_maker p.network)
          d
  unfolding Maker.Restore.restore_buy_actor Maker.Restore.buy_restore Maker.Restore.buy_data_restore
      restored spawn_restored_maker
  buy_makers-AreRestorable other [] h = tt
  buy_makers-AreRestorable other ((k, task) ∷ d) h =
      ground (arith, buy_makers-AreRestorable other d h.3)

  pub restore_buy_makers-files :
      (other : List Taker.FatCrabTakerActor) (d : Dict MakerTask) (l : List Maker.FatCrabMakerActor)
      → AreSavedMakers json disk d
      → Restore.restore_buy_makers json disk.n3xb_makers disk.n3xb_takers
          (found (files disk.print disk.maker_file (chosen_buy_maker p.network) d))
          (with_maker_log other l)
        ≡ ret
            (choose (chosen_buy_maker p.network) d [])
            (with_maker_log other (notes (chosen_buy_maker p.network) (λ a l. a ∷ l) d l))
  unfolding Restore.restore_buy_makers restore_directory restore_listed
  restore_buy_makers-files other d l h =
      restore_entries-files disk.n3xb_makers
        (λ file. spawn_restored_maker (Maker.Restore.restore_buy_actor json.buy_maker file))
        (with_maker_log other) (λ a l. a ∷ l) disk.print disk.maker_file
        (chosen_buy_maker p.network) d [] l (buy_makers-AreRestorable other d h)

  sell_makers-AreRestorable :
      (other : List Taker.FatCrabTakerActor) (d : Dict MakerTask)
      → AreSavedMakers json disk d
      → AreRestorable disk.n3xb_makers
          (λ file. spawn_restored_maker (Maker.Restore.restore_sell_actor json.sell_maker file))
          (with_maker_log other)
          (λ a l. a ∷ l)
          disk.print
          disk.maker_file
          (chosen_sell_maker p.network)
          d
  unfolding Maker.Restore.restore_sell_actor Maker.Restore.sell_restore
      Maker.Restore.sell_data_restore restored spawn_restored_maker
  sell_makers-AreRestorable other [] h = tt
  sell_makers-AreRestorable other ((k, task) ∷ d) h =
      ground (arith, sell_makers-AreRestorable other d h.3)

  pub restore_sell_makers-files :
      (other : List Taker.FatCrabTakerActor) (d : Dict MakerTask) (l : List Maker.FatCrabMakerActor)
      → AreSavedMakers json disk d
      → Restore.restore_sell_makers json disk.n3xb_makers disk.n3xb_takers
          (found (files disk.print disk.maker_file (chosen_sell_maker p.network) d))
          (with_maker_log other l)
        ≡ ret
            (choose (chosen_sell_maker p.network) d [])
            (with_maker_log other (notes (chosen_sell_maker p.network) (λ a l. a ∷ l) d l))
  unfolding Restore.restore_sell_makers restore_directory restore_listed
  restore_sell_makers-files other d l h =
      restore_entries-files disk.n3xb_makers
        (λ file. spawn_restored_maker (Maker.Restore.restore_sell_actor json.sell_maker file))
        (with_maker_log other) (λ a l. a ∷ l) disk.print disk.maker_file
        (chosen_sell_maker p.network) d [] l (sell_makers-AreRestorable other d h)

  buy_takers-AreRestorable :
      (other : List Maker.FatCrabMakerActor) (d : Dict TakerTask)
      → AreSavedTakers json disk d
      → AreRestorable disk.n3xb_takers
          (λ file. spawn_restored_taker (Taker.Restore.restore_buy_actor json.buy_taker file))
          (with_taker_log other)
          (λ a l. a ∷ l)
          disk.print
          disk.taker_file
          (chosen_buy_taker p.network)
          d
  unfolding Taker.Restore.restore_buy_actor Taker.Restore.buy_restore Taker.Restore.buy_data_restore
      restored spawn_restored_taker
  buy_takers-AreRestorable other [] h = tt
  buy_takers-AreRestorable other ((k, task) ∷ d) h =
      ground (arith, buy_takers-AreRestorable other d h.3)

  pub restore_buy_takers-files :
      (other : List Maker.FatCrabMakerActor) (d : Dict TakerTask) (l : List Taker.FatCrabTakerActor)
      → AreSavedTakers json disk d
      → Restore.restore_buy_takers json disk.n3xb_makers disk.n3xb_takers
          (found (files disk.print disk.taker_file (chosen_buy_taker p.network) d))
          (with_taker_log other l)
        ≡ ret
            (choose (chosen_buy_taker p.network) d [])
            (with_taker_log other (notes (chosen_buy_taker p.network) (λ a l. a ∷ l) d l))
  unfolding Restore.restore_buy_takers restore_directory restore_listed
  restore_buy_takers-files other d l h =
      restore_entries-files disk.n3xb_takers
        (λ file. spawn_restored_taker (Taker.Restore.restore_buy_actor json.buy_taker file))
        (with_taker_log other) (λ a l. a ∷ l) disk.print disk.taker_file
        (chosen_buy_taker p.network) d [] l (buy_takers-AreRestorable other d h)

  sell_takers-AreRestorable :
      (other : List Maker.FatCrabMakerActor) (d : Dict TakerTask)
      → AreSavedTakers json disk d
      → AreRestorable disk.n3xb_takers
          (λ file. spawn_restored_taker (Taker.Restore.restore_sell_actor json.sell_taker file))
          (with_taker_log other)
          (λ a l. a ∷ l)
          disk.print
          disk.taker_file
          (chosen_sell_taker p.network)
          d
  unfolding Taker.Restore.restore_sell_actor Taker.Restore.sell_restore
      Taker.Restore.sell_data_restore restored spawn_restored_taker
  sell_takers-AreRestorable other [] h = tt
  sell_takers-AreRestorable other ((k, task) ∷ d) h =
      ground (arith, sell_takers-AreRestorable other d h.3)

  pub restore_sell_takers-files :
      (other : List Maker.FatCrabMakerActor) (d : Dict TakerTask) (l : List Taker.FatCrabTakerActor)
      → AreSavedTakers json disk d
      → Restore.restore_sell_takers json disk.n3xb_makers disk.n3xb_takers
          (found (files disk.print disk.taker_file (chosen_sell_taker p.network) d))
          (with_taker_log other l)
        ≡ ret
            (choose (chosen_sell_taker p.network) d [])
            (with_taker_log other (notes (chosen_sell_taker p.network) (λ a l. a ∷ l) d l))
  unfolding Restore.restore_sell_takers restore_directory restore_listed
  restore_sell_takers-files other d l h =
      restore_entries-files disk.n3xb_takers
        (λ file. spawn_restored_taker (Taker.Restore.restore_sell_actor json.sell_taker file))
        (with_taker_log other) (λ a l. a ∷ l) disk.print disk.taker_file
        (chosen_sell_taker p.network) d [] l (sell_takers-AreRestorable other d h)

module _ (json : TradeJson) (disk : Disk) (t : FatCrabTrader) where
  -- The trader after the restart, at one trade's id.
  abbrev pub Recovered : Uuid → FatCrabTrader → Type 0
  Recovered j t' =
      (get j t'.makers ≡ mapped (restarted_maker t.purse.network) (get j t.makers))
      × (get j t'.takers ≡ mapped (restarted_taker t.purse.network) (get j t.takers))
      × (t'.purse ≡ t.purse)

  abbrev pub Recovers : Uuid → Outcome FatCrabTrader Spawning → Type 0
  Recovers j (ret x t') = Recovered j t'
  Recovers j _ = ⊥

  -- Where every trade's file holds its store and the n3xb manager has the trade, restoring brings back
  -- each maker and each taker under its id, with the store that it had and nobody registered for its
  -- notifications, and no other trade; the purse is not touched. This supposes one trade for an id
  -- among the makers, and among the takers.
  pub restore-Recovers :
      (j : Uuid)
      → HasDistinctKeys t.makers
      → HasDistinctKeys t.takers
      → AreSavedMakers json disk t.makers
      → AreSavedTakers json disk t.takers
      → Recovers j (
          Restore.restore json disk.n3xb_makers disk.n3xb_takers
            (dirs_of disk t.purse.network t)
            (empty t.purse))
  unfolding Restore.restore restore_maker_takers restore_dirs
  restore-Recovers j dm dt sm st =
      let p = t.purse in
      let network = p.network in
      let buys = notes (chosen_buy_maker network) (λ a l. a ∷ l) t.makers [] in
      let makers = notes (chosen_sell_maker network) (λ a l. a ∷ l) t.makers buys in
      let buy_takers = notes (chosen_buy_taker network) (λ a l. a ∷ l) t.takers [] in
      ground (
        arith,
        restore_buy_makers-files json disk p [] t.makers [] sm,
        restore_sell_makers-files json disk p [] t.makers buys sm,
        restore_buy_takers-files json disk p makers t.takers [] st,
        restore_sell_takers-files json disk p makers t.takers buy_takers st,
        get-together Maker.Types.MakerEffect (chosen_buy_maker network) (chosen_sell_maker network)
            j t.makers dm,
        get-together Taker.Types.TakerEffect (chosen_buy_taker network) (chosen_sell_taker network)
            j t.takers dt,
      )

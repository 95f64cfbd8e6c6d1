-- ===== src/Trader/Lifetimes.antt =====
-- What holds of the money over a restart of the trader.
mod Tests
use fatcrab_trading.Base.{ℕ, ◌+◌, ⊤, List, arith}
use mathlib.Core.Path.{subst⁻¹}
use fatcrab_trading.Base.Dict.{Uuid}
use fatcrab_trading.Action.{Outcome, ret, raise, panic}
use fatcrab_trading.Common.{Float}
use fatcrab_trading.Purse.{Purse}
use fatcrab_trading.Purse.Construction.{BlockchainInfo, Chain}
use fatcrab_trading.Purse.Invariant.{times_sent, SpentOnceSince}
use fatcrab_trading.Purse.Startup.{restarted}
use fatcrab_trading.Trader.{FatCrabTrader, advance_all}
use fatcrab_trading.Trader.Construction.{Start, new_with_key}
use fatcrab_trading.Trader.Restore.{TradeJson}
use fatcrab_trading.Trader.Safety.{AreNotReissued, advance_all-SpentOnceSince}
use fatcrab_trading.Trader.Saved.{Disk}
use fatcrab_trading.Trader.Startup.{IsSaved, IsUp, ComesBack, new_with_key-ComesBack}
use fatcrab_trading.Trader.Types.{TraderEvent}

module _ (before : ℕ) (id : Uuid) where
  restarted-SpentOnceSince :
      (p : Purse)
      → SpentOnceSince before id p
      → SpentOnceSince (before + times_sent id p.sent) id (restarted p)
  restarted-SpentOnceSince p h = record { distinct = h.distinct; once = ground (arith, h.once) }

module _ (f : Float) (events : List TraderEvent) where
  -- The start succeeds, and this holds of the funds after the events of the new run.
  abbrev pub StaysSpentOnce : ℕ → Uuid → Outcome ⊤ FatCrabTrader → Type 0
  StaysSpentOnce before id (ret t s) = SpentOnceSince before id (advance_all f events t).purse
  StaysSpentOnce before id (raise e s) = ⊥
  StaysSpentOnce before id (panic s) = ⊥

  ComesBack-StaysSpentOnce :
      (before : ℕ) (id : Uuid) (json : TradeJson) (disk : Disk) (t : FatCrabTrader)
      (o : Outcome ⊤ FatCrabTrader)
      → AreNotReissued id events
      → SpentOnceSince before id (restarted t.purse)
      → ComesBack json disk t id o
      → StaysSpentOnce before id o
  ComesBack-StaysSpentOnce before id json disk t (ret t' s) new h back =
      advance_all-SpentOnceSince before id f events t' new
        (subst⁻¹ (SpentOnceSince before id) back.2 h)
  ComesBack-StaysSpentOnce before id json disk t (raise e s) new h back = absurd back
  ComesBack-StaysSpentOnce before id json disk t (panic s) new h back = absurd back

  -- Funds are spent at most once also over a restart. Suppose that up to its end a trader has kept to this, the
  -- runs before it counted in, that the files hold what it had, that the backend answers, and that the new
  -- run does not hand out the id of the funds again. Then the trader starts, and whatever events its
  -- new run has, in all runs together the funds were not broadcast, or once, and are gone.
  pub restart-SpentOnce :
      (before : ℕ) (id : Uuid) (start : Start) (disk : Disk) (info : BlockchainInfo) (chain : Chain)
      (t : FatCrabTrader)
      → SpentOnceSince before id t.purse
      → IsSaved start disk info t
      → IsUp start info chain
      → AreNotReissued id events
      → StaysSpentOnce (before + times_sent id t.purse.sent) id (new_with_key start info tt)
  restart-SpentOnce before id start disk info chain t h saved up new =
      ComesBack-StaysSpentOnce (before + times_sent id t.purse.sent) id start.trade_json disk t
        (new_with_key start info tt) new (restarted-SpentOnceSince before id t.purse h)
        (new_with_key-ComesBack start disk info chain t id saved up)

-- ===== src/Purse/Sending.antt =====
-- The request `SendFunds`, with the reply to its caller.
use fatcrab_trading.Base.{◌≡◌, ◌⊎◌, true, false, arith}
use fatcrab_trading.Base.Dict.{Uuid}
use fatcrab_trading.Action.{ok, err, Outcome, ret, panic}
use fatcrab_trading.Common.{Address}
use fatcrab_trading.Purse.{Purse, Bdk}
use fatcrab_trading.Purse.Actor.{PurseRequest, PurseReply, handle}
use fatcrab_trading.Purse.Spending.{Spends, send_funds-SendOutcome}

-- A reply goes to a caller that waits for it; the actor panics where nobody does.
abbrev pub Sends : Bdk → Uuid → Address → Purse → Outcome Purse PurseReply → Type 0
Sends w id address p (ret (PurseReply.text (ok txid)) p') =
    (w.rsp_open ≡ true) × Spends id address p p'
Sends w id address p (ret (PurseReply.text (err e)) p') = (w.rsp_open ≡ true) × (p' ≡ p)
Sends w id address p (panic p') = (w.rsp_open ≡ false) × ((p' ≡ p) ⊎ Spends id address p p')
Sends w id address p _ = ⊥

-- A request to send funds either fails and changes nothing, or broadcasts one transaction that pays the whole
-- allocated amount to the address, and removes the allocation. The caller gets the reply; the actor panics
-- exactly where the caller has gone, and then too, it has done the one or the other.
pub handle-Sends :
    (w : Bdk) (id : Uuid) (address : Address) (p : Purse)
    → Sends w id address p (handle w (PurseRequest.send_funds id address) p)
unfolding handle
handle-Sends w id address p = ground (arith, send_funds-SendOutcome w id p address)

-- ===== src/Lib.antt =====
-- Fatcrab-trading: peers trade bitcoin for FatCrabs over the n3xb protocol. This library models the
-- engine's own logic and proves what keeps the money safe.
--
-- The program's parts. A trade is run by an actor, the maker's (src/maker) or the taker's
-- (src/taker), each with an inner actor for a buy and for a sell order. An actor serves the requests
-- of the application and the notifications of the n3xb crate, one at a time; it keeps the trade's
-- data in a store that a thread saves (src/persist), and it asks the purse (src/purse) to set funds
-- aside, to free them and to send them. Orders, offers and answers (src/order.rs, src/offer.rs,
-- src/trade_rsp.rs) are translated to and from those of the n3xb crate.
--
-- How the code is read. A method is an `Action S A`: a function from its state to a returned value,
-- an error or a panic, each with the state that is left behind (Action.antt). `?` and early returns
-- are errors, `unwrap` and overflow are panics, and what was written before stays written.
-- Everything that comes from outside is an argument: the answers of the wallet (`Bdk`), of the n3xb
-- crate (`MakerEnv`, `TakerEnv`), of the `bitcoin` crate (`BitcoinCrate`), of floats (`Float`) and of
-- `serde_json` (`Json`). The theorems hold for all of them. Each event of an actor brings its own
-- answers, so that they may differ from call to call. u64 and u32 arithmetic is written out with its
-- bound (`u64_mod`, `u32_mod`); an overflow panics or wraps around, as `overflow_checks` says.
--
-- Which file models which part:
--   Base, Base/Dict      numbers, conditionals, and an association list for `HashMap<Uuid, _>`
--   Action, Action/Rules the reading of methods, and rules to prove of a composed one
--   Error, Common, N3xb  src/error.rs; src/common.rs and src/peer.rs; the types of the n3xb crate
--   Order, Offer, TradeRsp  src/order.rs, src/offer.rs, src/trade_rsp.rs
--   Purse                src/purse/purse.rs (`PurseActor`); Purse/Store is src/purse/data.rs, Purse/Actor
--                        the loop, Purse/Wallet what bdk answers, Purse/Construction the start with the
--                        saved data, Purse/Access `PurseAccess`; the other children are proofs
--   Persist              src/persist/std.rs: the owner and the thread as interleaved steps; Persist/Tokio
--                        is src/persist/tokio.rs
--   Actor, Access        what makers and takers share: own state, purse, and a log of what they tell the
--                        outside; the call of an actor through its channel
--   Maker                src/maker/maker.rs (`FatCrabMakerActor`); Maker/Types its enums, Maker/Buy and
--                        Maker/Sell the inner actors with their stores (src/maker/data.rs),
--                        Maker/Notifications and Maker/Run, Maker/Restore the restoring from a file,
--                        Maker/Access `FatCrabMakerAccess`; the other children are proofs
--   Taker                src/taker, in the same way
--   Trader               src/trader.rs: the purse and all trades, whose rounds interleave in any order;
--                        Trader/Directory and Trader/Restore the restoring of the trades,
--                        Trader/Construction the start, Trader/Queries the getters and `query_orders`,
--                        Trader/Shutdown `shutdown`; the other children are proofs
--   Exchange             a maker and a taker whose messages reach each other: BuyOrder and SellOrder are a
--                        whole trade, Moves and SellMoves any order of events
--   */Samples, */Tests   concrete values, and the theorems at them
--
-- A setter of a data store is a write that clears `is_queued` and a call of the persister's `queue`
-- that sets it. A text such as an address or a transaction id is the String that the source keeps.
-- A reply of an actor is an entry of the log, and its `unwrap` panics where the receiver is gone; the
-- purse's actor panics after the request in that case (`rsp_open`, in `handle`), while the trades and
-- the accessors wait for the reply of the purse. There
-- is no fuel: loops run over a list of events or requests. `Persister::terminate` waits for the
-- thread for three steps at most.
--
-- Files are texts: a directory is the list of what iterating over it gives, and a file what reading it
-- gives. A call through an accessor is the handling of its request; a call that the purse's actor
-- answers is the call of its method. A trader goes on from the state that a failing call leaves.
--
-- Not modelled: the methods of src/trader.rs that only forward to the n3xb manager (relays, the
-- public key, `reconnect`), the paths of the data directories, the keys of the bdk wallet, logging,
-- `Display` and the `From` conversions of errors (a converted error is the constructor), a trade that
-- calls the purse while the trader shuts it down, the rounds of tasks that a failed restoring has
-- detached, where in src/purse.rs and in the trades the data are dropped without `terminate` (what
-- the persister then does is in Persist.antt), and poisoned locks.
pub mod Base
pub mod Action
pub mod Error
pub mod Common
pub mod Persist
pub mod N3xb
pub mod Order
pub mod Offer
pub mod TradeRsp
pub mod Purse
pub mod Actor
pub mod Access
pub mod Maker
pub mod Taker
pub mod Samples
pub mod Trader
pub mod Exchange

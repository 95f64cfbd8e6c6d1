-- ===== src/Purse/Tests.antt =====
-- The purse's theorems at concrete values.
use fatcrab_trading.Base.{◌+◌, ◌<◌, ◌≤◌, ◌≡◌, refl, arith, some, false, List, [], ◌∷◌, inl}
use fatcrab_trading.Action.{ret, final, ok, u64_mod}
use fatcrab_trading.Samples.{wallet, purse}
use fatcrab_trading.Purse.{Purse, Bdk, allocate_funds, data_allocate_funds}
use fatcrab_trading.Purse.Actor.{PurseRequest, run, handle}
use fatcrab_trading.Purse.Alike.{Alike, AreAlike}
use fatcrab_trading.Purse.AnyOrder.{run-AreAlike}
use fatcrab_trading.Purse.Total.{total}
use fatcrab_trading.Purse.Invariant.{SpentOnce}
use fatcrab_trading.Purse.Solvency.{Allocates, allocate_funds-total, allocate_funds_overcommits}
use fatcrab_trading.Purse.Saving.{Saves, handle-Saves}
use fatcrab_trading.Purse.Sending.{Sends, handle-Sends}

pub purse-SpentOnce_7 : SpentOnce 7 purse
purse-SpentOnce_7 = record { distinct = (refl, (refl, tt)); once = inl refl }

abbrev session : List (Bdk × PurseRequest)
session =
    (wallet, PurseRequest.allocate_funds 200)
    ∷ (wallet, PurseRequest.send_funds 7 "bc1q-peer")
    ∷ (wallet, PurseRequest.send_funds 7 "bc1q-peer")
    ∷ []

-- The same entries, in the other order.
abbrev reordered : Purse
reordered = record purse {
  purse_data = record purse.purse_data {
    store = record purse.purse_data.store { allocated_funds = (8, 300) ∷ (7, 500) ∷ [] };
  };
}

reordered-Alike : Alike purse reordered
reordered-Alike = record {
  network = refl;
  store_network = refl;
  height = refl;
  is_queued = refl;
  sent = refl;
  distinct = (refl, (refl, tt));
  distinct_too = (refl, (refl, tt));
  same = λ k. ground arith;
}

run-AreAlike_example : AreAlike (run session purse) (run session reordered)
run-AreAlike_example = run-AreAlike session purse reordered reordered-Alike

-- The caller has gone before the reply.
abbrev unheard : Bdk
unheard = record wallet { rsp_open = false }

handle-Sends_example :
    Sends unheard 7 "bc1q-peer" purse (handle unheard (PurseRequest.send_funds 7 "bc1q-peer") purse)
handle-Sends_example = handle-Sends unheard 7 "bc1q-peer" purse

fits_u64 : 10000 < u64_mod
fits_u64 = ground arith

solvent : total purse ≤ 10000
solvent = ground arith

allocate_funds-total_example : Allocates 99 200 10000 purse (allocate_funds wallet 200 purse)
allocate_funds-total_example = allocate_funds-total wallet purse refl fits_u64 solvent 200 refl

-- A wallet that has spent what was set aside.
abbrev poor_wallet : Bdk
poor_wallet = record wallet {
  get_balance =
      ok (record { immature = 0; trusted_pending = 0; untrusted_pending = 0; confirmed = 100 });
}

total_fits : total purse < u64_mod
total_fits = ground arith

overcommitted : 100 < total purse
overcommitted = ground arith

room : 200 + total purse ≤ 100 + u64_mod
room = ground arith

allocate_funds_overcommits_example :
    allocate_funds (record poor_wallet { overflow_checks = false }) 200 purse
    ≡ ret 99 (final (data_allocate_funds 99 200 (some 110) purse))
allocate_funds_overcommits_example =
    allocate_funds_overcommits (record poor_wallet { overflow_checks = false }) purse refl 200
      total_fits overcommitted room

handle-Saves_example :
    Saves wallet PurseRequest.sync_blockchain purse
      (final (handle wallet PurseRequest.sync_blockchain purse))
handle-Saves_example = handle-Saves wallet purse PurseRequest.sync_blockchain refl

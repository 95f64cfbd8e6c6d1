-- ===== src/Purse/Startup.antt =====
-- What the purse starts with, in a first run and after a restart.
use fatcrab_trading.Base.{⊤, Bool, true, false, none, [], ◌≡◌, refl, arith, inl, inr, Bool-cases}
use fatcrab_trading.Action.{Result, Result-cases, ok, Outcome, ret, raise, panic}
use fatcrab_trading.Error.{ExternalError}
use fatcrab_trading.Common.{Network}
use fatcrab_trading.Persist.{restore}
use fatcrab_trading.Persist.Types.{Json}
use fatcrab_trading.Purse.{Purse, PurseDataStore}
use fatcrab_trading.Purse.Construction.{
  BlockchainInfo, electrum, rpc, network_of, network_eq, Chain, Backend, PurseFile, rpc_config, new,
  new_with_electrum, new_with_rpc, actor_new, data_new, data_restore, new_store,
}

abbrev pub connect : Backend → BlockchainInfo → Result Chain ExternalError
connect backend (electrum url network) = backend.electrum_client url
connect backend (rpc url auth network) = backend.from_config (rpc_config backend url network auth)

network_eq_sound : (n m : Network) → network_eq n m ≡ true → n ≡ m
network_eq_sound Network.bitcoin Network.bitcoin e = refl
network_eq_sound Network.testnet Network.testnet e = refl
network_eq_sound Network.signet Network.signet e = refl
network_eq_sound Network.regtest Network.regtest e = refl
network_eq_sound Network.other Network.other e = refl
network_eq_sound n m e = ground arith

network_eq_self : (n : Network) → network_eq n n ≡ true
network_eq_self Network.bitcoin = refl
network_eq_self Network.testnet = refl
network_eq_self Network.signet = refl
network_eq_self Network.regtest = refl
network_eq_self Network.other = refl

-- The purse after a restart: its data as they were, and no broadcast in the record.
abbrev pub restarted : Purse → Purse
restarted p = record {
  network = p.network;
  purse_data = record { store = p.purse_data.store; is_queued = true };
  sent = [];
}

module _ (json : Json PurseDataStore) (backend : Backend) (file : PurseFile) where
  abbrev ComesFrom : Bool → PurseDataStore → Type 0
  ComesFrom true store = restore json file.text ≡ ok store
  ComesFrom false store = store.allocated_funds ≡ []

  abbrev pub Starts : {S : Type 0} → Network → Outcome S Purse → Type 0
  Starts network (ret p s) =
      (p.network ≡ network)
      × (p.purse_data.store.network ≡ network)
      × (p.purse_data.is_queued ≡ true)
      × (p.sent ≡ [])
      × ComesFrom file.exists p.purse_data.store
  Starts network (raise e s) = ⊥
  Starts network (panic s) = ⊤

  module _ {S : Type 0} (s : S) where
    actor_new-Starts :
        (network : Network) (chain : Chain)
        → Starts network (actor_new json backend file network chain s)
    unfolding actor_new data_new data_restore new_store
    actor_new-Starts network chain = elim (Bool-cases file.exists) [
      | inl e ↦ elim (Result-cases (restore json file.text)) [
        | inl (store, r) ↦ ground (arith, network_eq_sound store.network network)
        | inr (x, r) ↦ ground arith
      ]
      | inr e ↦ ground (arith, network_eq_self network)
    ]

    actor_new-Restores :
        (p : Purse) (chain : Chain)
        → p.purse_data.store.network ≡ p.network
        → file.exists ≡ true
        → restore json file.text ≡ ok p.purse_data.store
        → backend.new_wallet p.network ≡ none
        → chain.sync ≡ none
        → actor_new json backend file p.network chain s ≡ ret (restarted p) s
    unfolding actor_new data_new data_restore
    actor_new-Restores p chain own exists held wallet synced =
        ground (arith, network_eq_self p.network)

    -- A purse starts on the network that it was given, with the data that its file holds: it never
    -- starts with data of another network, and with nothing set aside only where there is no file or
    -- the file says so. It starts or panics, and returns no error.
    pub new-Starts :
        (info : BlockchainInfo) → Starts (network_of info) (new json backend file info s)
    unfolding new new_with_electrum new_with_rpc
    new-Starts (electrum url network) = elim (Result-cases (backend.electrum_client url)) [
      | inl (chain, e) ↦ ground (arith, actor_new-Starts network chain)
      | inr (x, e) ↦ ground arith
    ]
    new-Starts (rpc url auth network) =
        elim (Result-cases (backend.from_config (rpc_config backend url network auth))) [
          | inl (chain, e) ↦ ground (arith, actor_new-Starts network chain)
          | inr (x, e) ↦ ground arith
        ]

    -- A purse whose data were saved starts with them again, if the backend answers and the wallet
    -- can be made and synchronised: everything that was set aside is still so, under the same ids.
    pub new-Restores :
        (info : BlockchainInfo) (p : Purse) (chain : Chain)
        → p.network ≡ network_of info
        → p.purse_data.store.network ≡ p.network
        → file.exists ≡ true
        → restore json file.text ≡ ok p.purse_data.store
        → connect backend info ≡ ok chain
        → backend.new_wallet p.network ≡ none
        → chain.sync ≡ none
        → new json backend file info s ≡ ret (restarted p) s
    unfolding new new_with_electrum new_with_rpc
    new-Restores (electrum url network) p chain net own exists held up wallet synced =
        ground (arith, actor_new-Restores p chain own exists held wallet synced)
    new-Restores (rpc url auth network) p chain net own exists held up wallet synced =
        ground (arith, actor_new-Restores p chain own exists held wallet synced)

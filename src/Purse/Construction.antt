-- ===== src/Purse/Construction.antt =====
-- src/purse/data.rs, src/purse/purse.rs and `BlockchainInfo` of src/common.rs: how the purse's actor is
-- made, with the data that an earlier run has left. The bitcoin and bdk crates are parameters.
use fatcrab_trading.Base.{ℕ, ⊤, Bool, true, false, String, Option, none, some, []}
use fatcrab_trading.Action.{Result, ok, err, Action, pure, fail, propagate, ◌>>=◌, ◌>>◌, unwrap_ok}
use fatcrab_trading.Error.{ExternalError}
use fatcrab_trading.Common.{Network}
use fatcrab_trading.Persist.{restore}
use fatcrab_trading.Persist.Types.{Json}
use fatcrab_trading.Purse.{Purse, PurseData, PurseDataStore}
use fatcrab_trading.Actor.{must}

pub data Auth : Type 0 where
  user_pass : String → String → Auth
  cookie_file : String → Auth
  no_auth : Auth

pub data BlockchainInfo : Type 0 where
  electrum : String → Network → BlockchainInfo
  rpc : String → Auth → Network → BlockchainInfo

abbrev pub network_of : BlockchainInfo → Network
network_of (electrum url network) = network
network_of (rpc url auth network) = network

abbrev pub network_eq : Network → Network → Bool
network_eq Network.bitcoin Network.bitcoin = true
network_eq Network.testnet Network.testnet = true
network_eq Network.signet Network.signet = true
network_eq Network.regtest Network.regtest = true
network_eq Network.other Network.other = true
network_eq _ _ = false

-- `Auth` of bdk.
pub data BdkAuth : Type 0 where
  none_auth : BdkAuth
  user_pass_auth : String → String → BdkAuth
  cookie_auth : String → BdkAuth

pub record RpcConfig : Type 0 where
  pub url : String
  pub auth : BdkAuth
  pub network : Network
  pub wallet_name : String

-- A chain backend: what it answers at the start.
pub record Chain : Type 0 where
  pub get_height : Result ℕ ExternalError
  pub sync : Option ExternalError

-- `Client::new`, `RpcBlockchain::from_config`, the making of the wallet from the key, and the name
-- `Purse-{}` with a new Uuid.
pub record Backend : Type 0 where
  pub electrum_client : String → Result Chain ExternalError
  pub from_config : RpcConfig → Result Chain ExternalError
  pub new_wallet : Network → Option ExternalError
  pub wallet_name : String

-- The file of the purse's data: whether it exists, and what reading it gives.
pub record PurseFile : Type 0 where
  pub exists : Bool
  pub text : Option String

unfoldable pub new_store : Network → ℕ → PurseDataStore
new_store network height = record { network = network; height = height; allocated_funds = [] }

-- PurseData::restore.
unfoldable pub data_restore :
    {S : Type 0} → Json PurseDataStore → Option String → Action S PurseDataStore
data_restore json text = propagate (restore json text)

first_store :
    {S : Type 0}
    → Json PurseDataStore
    → PurseDataStore
    → Option String
    → Bool
    → Action S PurseDataStore
unfolding data_restore
first_store json store text true = must (data_restore json text)
first_store json store text false = pure store

-- PurseData::new: a file that is there and cannot be read panics.
unfoldable pub data_new :
    {S : Type 0} → Json PurseDataStore → Network → ℕ → PurseFile → Action S PurseData
unfolding first_store new_store
data_new json network height file = do
  store ← first_store json (new_store network height) file.text file.exists
  pure (record { store = store; is_queued = true })

abbrev height_or_zero : Result ℕ ExternalError → ℕ
height_or_zero (ok height) = height
height_or_zero (err e) = 0

abbrev pub unwrap_done : {S : Type 0} → Option ExternalError → Action S ⊤
unwrap_done none = pure tt
unwrap_done (some e) = fail

abbrev assert : {S : Type 0} → Bool → Action S ⊤
assert true = pure tt
assert false = fail

unfoldable pub rpc_to_bdk_auth : Auth → BdkAuth
rpc_to_bdk_auth (user_pass username password) = user_pass_auth username password
rpc_to_bdk_auth (cookie_file path) = cookie_auth path
rpc_to_bdk_auth no_auth = none_auth

-- The configuration that `new_with_rpc` builds; `sync_params` are none.
unfoldable pub rpc_config : Backend → String → Network → Auth → RpcConfig
unfolding rpc_to_bdk_auth
rpc_config backend url network auth = record {
  url = url;
  auth = rpc_to_bdk_auth auth;
  network = network;
  wallet_name = backend.wallet_name;
}

module _ {S : Type 0} (json : Json PurseDataStore) (backend : Backend) (file : PurseFile) where
  -- PurseActor::new. A restored height above the chain's is only logged.
  unfoldable pub actor_new : Network → Chain → Action S Purse
  unfolding data_new
  actor_new network chain = do
    unwrap_done (backend.new_wallet network)
    purse_data ← data_new json network (height_or_zero chain.get_height) file
    assert (network_eq purse_data.store.network network)
    unwrap_done chain.sync
    pure (record { network = network; purse_data = purse_data; sent = [] })

  unfoldable pub new_with_electrum : Network → String → Action S Purse
  unfolding actor_new
  new_with_electrum network url = do
    chain ← unwrap_ok (backend.electrum_client url)
    actor_new network chain

  unfoldable pub new_with_rpc : String → Network → Auth → Action S Purse
  unfolding actor_new rpc_config
  new_with_rpc url network auth = do
    chain ← unwrap_ok (backend.from_config (rpc_config backend url network auth))
    actor_new network chain

  -- Purse::new: the actor is made in its own task, and its panic is that task's.
  unfoldable pub new : BlockchainInfo → Action S Purse
  unfolding new_with_electrum new_with_rpc
  new (electrum url network) = new_with_electrum network url
  new (rpc url auth network) = new_with_rpc url network auth

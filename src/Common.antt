-- ===== src/Common.antt =====
-- src/common.rs, src/peer.rs: types that the trade actors and the purse share, and what they use of
-- floats and of the `bitcoin` crate.
use fatcrab_trading.Base.{ℕ, String, Option, none, some, Bool, true, false}
use fatcrab_trading.Action.{Action, ◌>>=◌, unwrap}

pub data Network : Type 0 where
  bitcoin testnet signet regtest other : Network

abbrev pub is_regtest : Network → Bool
is_regtest regtest = true
is_regtest _ = false

-- An address and a transaction id are the texts that the crate prints them as.
abbrev pub Address : Type 0
Address = String

abbrev pub Txid : Type 0
Txid = String

-- An `f64` is its bit pattern, and its operations are a parameter.
abbrev pub F64 : Type 0
F64 = ℕ

pub record Float : Type 0 where
  pub mul : F64 → F64 → F64
  pub recip : F64 → F64
  pub round : F64 → F64
  pub to_u64 : F64 → ℕ

-- `Address::from_str`, `Address::require_network` and `Txid::from_str`.
pub record BitcoinCrate : Type 0 where
  pub address_from_str : String → Option Address
  pub require_network : Address → Network → Option Address
  pub txid_from_str : String → Option Txid

-- `bdk::Balance`.
pub record WalletBalance : Type 0 where
  pub immature : ℕ
  pub trusted_pending : ℕ
  pub untrusted_pending : ℕ
  pub confirmed : ℕ

pub record Balances : Type 0 where
  pub immature : ℕ
  pub trusted_pending : ℕ
  pub untrusted_pending : ℕ
  pub confirmed : ℕ
  pub allocated : ℕ

unfoldable pub balances_from : WalletBalance → ℕ → Balances
balances_from b allocated = record {
  immature = b.immature;
  trusted_pending = b.trusted_pending;
  untrusted_pending = b.untrusted_pending;
  confirmed = b.confirmed;
  allocated = allocated;
}

-- Both failures panic: the text is no address, or one of another network.
unfoldable pub parse_address : {S : Type 0} → BitcoinCrate → String → Network → Action S Address
parse_address b address network = do
  unchecked ← unwrap (b.address_from_str address)
  unwrap (b.require_network unchecked network)

pub record FatCrabPeerMessage : Type 0 where
  pub receive_address : String
  pub txid : String

-- The content of a peer message of the n3xb crate: this engine's, or another type's.
pub data PeerContent : Type 0 where
  fatcrab_peer_message : FatCrabPeerMessage → PeerContent
  other_message : PeerContent

pub record PeerEnvelope : Type 0 where
  pub event_id : String
  pub message : PeerContent

-- `downcast_ref::<FatCrabPeerMessage>()`.
abbrev pub downcast_peer_message : PeerContent → Option FatCrabPeerMessage
downcast_peer_message (fatcrab_peer_message m) = some m
downcast_peer_message other_message = none

pub record FatCrabPeerEnvelope : Type 0 where
  pub message : FatCrabPeerMessage
  pub envelope : PeerEnvelope

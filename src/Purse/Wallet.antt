-- ===== src/Purse/Wallet.antt =====
-- What the purse asks of the `bdk` wallet and its blockchain: the answers that one request gets,
-- whatever they are. Wallet, transaction builder and backend are not code of this repository.
use fatcrab_trading.Base.{ℕ, Bool, false, String, Option, none}
use fatcrab_trading.Base.Dict.{Uuid}
use fatcrab_trading.Action.{Result}
use fatcrab_trading.Error.{ExternalError}
use fatcrab_trading.Common.{Address, Txid, WalletBalance}

-- What `build_tx`, `set_recipients`, `fee_rate` and `enable_rbf` have set.
pub record TxRequest : Type 0 where
  pub recipient : Address
  pub sats : ℕ
  pub fee_rate : Option ℕ
  pub rbf : Bool

abbrev pub new_tx_request : Address → ℕ → TxRequest
new_tx_request address sats = record {
  recipient = address;
  sats = sats;
  fee_rate = none;
  rbf = false;
}

-- A partially signed transaction and an extracted one are texts.
abbrev pub Psbt : Type 0
Psbt = String

abbrev pub Tx : Type 0
Tx = String

pub record TxDetails : Type 0 where
  pub confirmation_height : Option ℕ

-- `rsp_open`: the caller of the request still waits for the reply.
pub record Bdk : Type 0 where
  pub rsp_open : Bool
  pub overflow_checks : Bool
  pub mnemonic : Result String ExternalError
  pub get_address : Result Address ExternalError
  pub get_balance : Result WalletBalance ExternalError
  pub new_uuid : Uuid
  pub estimate_fee : ℕ → Result ℕ ExternalError
  pub finish : TxRequest → Result Psbt ExternalError
  pub sign : Psbt → Result Psbt ExternalError
  pub extract_tx : Psbt → Tx
  pub txid : Tx → Txid
  pub broadcast : Tx → Option ExternalError
  pub get_height : Result ℕ ExternalError
  pub get_tx : Txid → Result (Option TxDetails) ExternalError
  pub sync : Option ExternalError

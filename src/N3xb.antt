-- ===== src/N3xb.antt =====
-- What the engine exchanges with the `crusty_n3xb` crate: its orders, offers and trade responses,
-- as far as the engine reads or sets them. A `HashSet` is the list of what iterating over it gives.
use fatcrab_trading.Base.{String, Bool, true, false, Option, some, List}
use fatcrab_trading.Base.Dict.{Uuid}
use fatcrab_trading.Common.{F64}

pub data BitcoinNetwork : Type 0 where
  mainnet testnet regtest signet : BitcoinNetwork

pub data BitcoinSettlementMethod : Type 0 where
  onchain other_method : BitcoinSettlementMethod

pub data ObligationKind : Type 0 where
  bitcoin : BitcoinNetwork → Option BitcoinSettlementMethod → ObligationKind
  fiat : String → Option String → ObligationKind
  custom : String → ObligationKind

abbrev pub is_onchain : Option BitcoinSettlementMethod → Bool
is_onchain (some onchain) = true
is_onchain _ = false

pub record MakerObligation : Type 0 where
  pub kinds : List ObligationKind
  pub amount : F64
  pub amount_min : Option F64

pub record TakerObligation : Type 0 where
  pub kinds : List ObligationKind
  pub limit_rate : Option F64
  pub market_offset_pct : Option F64
  pub market_oracles : Option (List String)

pub record TradeDetails : Type 0 where
  pub parameters : List String
  pub maker_bond_pct : Option F64
  pub taker_bond_pct : Option F64
  pub trade_timeout : Option F64

pub record N3xbOrder : Type 0 where
  pub trade_uuid : Uuid
  pub maker_obligation : MakerObligation
  pub taker_obligation : TakerObligation
  pub trade_details : TradeDetails

pub record OrderEnvelope : Type 0 where
  pub pubkey : String
  pub order : N3xbOrder

pub record Obligation : Type 0 where
  pub kind : ObligationKind
  pub amount : F64
  pub bond_amount : Option F64

pub record N3xbOffer : Type 0 where
  pub maker_obligation : Obligation
  pub taker_obligation : Obligation

pub record OfferEnvelope : Type 0 where
  pub pubkey : String
  pub event_id : String
  pub offer : N3xbOffer

pub data TradeResponseStatus : Type 0 where
  accepted rejected not_available : TradeResponseStatus

pub data OfferInvalidReason : Type 0 where
  cancelled pending_another trade_engine_specific : OfferInvalidReason

-- The specifics of a trade response: this engine's, with the receive address, or anything else.
pub data TradeEngineSpecifics : Type 0 where
  fatcrab_make_trade_rsp : String → TradeEngineSpecifics
  other_specifics : TradeEngineSpecifics

pub record TradeResponse : Type 0 where
  pub offer_event_id : String
  pub trade_response : TradeResponseStatus
  pub reject_reason : Option OfferInvalidReason
  pub trade_engine_specifics : TradeEngineSpecifics

pub record TradeResponseEnvelope : Type 0 where
  pub event_id : String
  pub trade_rsp : TradeResponse

-- ===== src/TradeRsp.antt =====
-- src/trade_rsp.rs: a maker's answer to an offer.
use fatcrab_trading.Base.{String}
use fatcrab_trading.Action.{Action, pure, fail}
use fatcrab_trading.N3xb.{
  TradeResponse, TradeResponseEnvelope, TradeResponseStatus, accepted, rejected, not_available,
  TradeEngineSpecifics, fatcrab_make_trade_rsp, other_specifics,
}

pub data FatCrabTradeRspType : Type 0 where
  accept reject : FatCrabTradeRspType

pub data FatCrabTradeRsp : Type 0 where
  accept : String → FatCrabTradeRsp
  reject : FatCrabTradeRsp

pub record FatCrabTradeRspEnvelope : Type 0 where
  pub trade_rsp : FatCrabTradeRsp
  pub envelope : TradeResponseEnvelope

-- An accepting response that carries another type's specifics panics.
accepting : {S : Type 0} → TradeEngineSpecifics → Action S FatCrabTradeRsp
accepting (fatcrab_make_trade_rsp receive_address) = pure (FatCrabTradeRsp.accept receive_address)
accepting other_specifics = fail

from_status : {S : Type 0} → TradeResponseStatus → TradeEngineSpecifics → Action S FatCrabTradeRsp
unfolding accepting
from_status accepted specifics = accepting specifics
from_status rejected specifics = pure FatCrabTradeRsp.reject
from_status not_available specifics = pure FatCrabTradeRsp.reject

unfoldable pub from_n3xb_trade_rsp : {S : Type 0} → TradeResponse → Action S FatCrabTradeRsp
unfolding from_status
from_n3xb_trade_rsp rsp = from_status rsp.trade_response rsp.trade_engine_specifics

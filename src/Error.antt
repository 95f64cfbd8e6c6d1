-- ===== src/Error.antt =====
-- src/error.rs: what a call can fail with. A `format!` text is a constructor, with the id, the text or
-- the error that it names; an error of another crate is an opaque text.
use fatcrab_trading.Base.{String}
use fatcrab_trading.Base.Dict.{Uuid}

abbrev pub ExternalError : Type 0
ExternalError = String

mutual
  pub data Description : Type 0 where
    insufficient_funds insufficient_confirmed_balance conf_height_above_height : Description
    allocated_funds_not_found : Uuid → Description
    cannot_cancel_order notif_tx_already_registered notif_tx_not_registered : Uuid → Description
    btc_address_not_received btc_txid_not_received : Uuid → Description
    buyer_has_no_peer_btc_txid seller_keeps_no_trade_rsp : Uuid → Description
    no_peer_btc_txid : Description
    address_not_on_network : Uuid → String → Description
    unable_to_send_funds unable_to_send_peer_message : Uuid → FatCrabError → Description
    custom_kind_not_expected fiat_kind_not_expected : String → Description
    obligation_kinds_inconsistent : Description
    unexpected_bitcoin_network mismatch_maker_kinds mismatch_taker_kinds : Description
    order_type_not_determined : Description

  pub data FatCrabError : Type 0 where
    tx_not_found tx_unconfirmed : FatCrabError
    simple : Description → FatCrabError
    n3xb bdk_bip39 bdk io join_error serdes_json mpsc_send oneshot_recv :
        ExternalError → FatCrabError

-- ===== src/Model.antt =====
-- internal/model/deposit.go: the raw event of a scanner, the deposit that is sent to the Adapter,
-- and the conversion between them.
pub mod Units
use listener_go.Prelude.{ℕ, ℤ, Text, codes, Option, none, some, leb_ℤ, if◌then◌else◌}
use Units.{format_units}

pub data DepositStatus : Type 0 where
  confirmed pending : DepositStatus

-- The string constants "TXCF" and "TXPD".
pub status_text : DepositStatus → Text
status_text confirmed = codes "TXCF"
status_text pending = codes "TXPD"

pub record DepositEvent : Type 0 where
  pub chain_id : ℤ
  pub tx_hash : Text
  pub log_index : ℤ
  pub from_address : Text
  pub to_address : Text
  pub amount : Option ℤ
  pub symbol : Text
  pub decimals : ℕ
  pub confirmations : ℤ
  pub transaction_datetime : Text

pub record Deposit : Type 0 where
  pub chain_id : ℤ
  pub tx_hash : Text
  pub log_index : ℤ
  pub from_address : Text
  pub to_address : Text
  pub amount : Text
  pub confirm_count : ℤ
  pub symbol : Text
  pub status : DepositStatus
  pub transaction_datetime : Text
  pub received_datetime_ms : Text

-- What the conversion takes from package `time`: parsing RFC 3339, and the KST layouts without and
-- with milliseconds.
pub record TimeFormats (Time : Type 0) : Type 0 where
  pub parse : Text → Option Time
  pub format_kst : Time → Text
  pub format_kst_ms : Time → Text

module _ {Time : Type 0} (fmt : TimeFormats Time) where
  status_of : ℤ → ℤ → DepositStatus
  status_of confirmations min_confirmations =
      if leb_ℤ min_confirmations confirmations then confirmed else pending

  -- `now` is the value of `time.Now()`; `none` is the result `(nil, false)`.
  unfoldable pub to_deposit : Time → DepositEvent → ℤ → Option Deposit
  unfolding status_of
  to_deposit now e min_confirmations = elim (fmt.parse e.transaction_datetime) [
    | none ↦ none
    | some tx ↦ some (record {
      chain_id = e.chain_id;
      tx_hash = e.tx_hash;
      log_index = e.log_index;
      from_address = e.from_address;
      to_address = e.to_address;
      amount = format_units e.amount e.decimals;
      confirm_count = e.confirmations;
      symbol = e.symbol;
      status = status_of e.confirmations min_confirmations;
      transaction_datetime = fmt.format_kst tx;
      received_datetime_ms = fmt.format_kst_ms now;
    })
  ]

-- ===== src/Publisher/Protocol.antt =====
-- internal/publisher/protocol.go: the envelope of every message, and the id of a deposit.
pub mod Ids
use listener_go.Prelude.{
  Text, codes, eq_text, not, ◌&&◌, Option, none, some, [], ◌∷◌, ◌++◌, if◌then◌else◌,
}
use listener_go.Prelude.Decimal.{show_ℤ}
use listener_go.Model.{Deposit}
use listener_go.Database.Tables.{Key}
use listener_go.Database.Buffer.{Codec, key_of}

pub record Envelope (Raw : Type 0) : Type 0 where
  pub kind : Text
  pub id : Text
  pub payload : Option Raw

abbrev pub msg_type_deposit : Text
msg_type_deposit = codes "deposit"

abbrev pub msg_type_ack : Text
msg_type_ack = codes "ack"

-- fmt.Sprintf("%d:%s:%d", chainID, txHash, logIndex); `depositKey` of internal/audit has the same
-- text.
unfoldable pub ack_id : Key → Text
ack_id k = show_ℤ k.chain_id ++ (b':' ∷ (k.tx_hash ++ (b':' ∷ show_ℤ k.log_index)))

-- `json.Marshal` and `json.Unmarshal` of an envelope.
pub record Wire (Raw Frame : Type 0) : Type 0 where
  pub marshal : Envelope Raw → Option Frame
  pub unmarshal : Frame → Option (Envelope Raw)

module _ {Raw Frame : Type 0} (codec : Codec Raw) (wire : Wire Raw Frame) where
  abbrev deposit_envelope : Text → Raw → Envelope Raw
  deposit_envelope id payload = record { kind = msg_type_deposit; id = id; payload = some payload }

  -- `none` is an error of either marshalling.
  unfoldable pub encode_deposit : Deposit → Option (Frame × Text)
  encode_deposit d = elim (codec.marshal d) [
    | none ↦ none
    | some payload ↦
        let id = ack_id (key_of d) in
        elim (wire.marshal (deposit_envelope id payload)) [
          | none ↦ none
          | some raw ↦ some (raw, id)
        ]
  ]

module _ {Raw Frame : Type 0} (wire : Wire Raw Frame) where
  abbrev ack_of_envelope : Envelope Raw → Option Text
  ack_of_envelope env =
      if eq_text env.kind msg_type_ack && not (eq_text env.id []) then some env.id else none

  -- What the read loop takes from a text message: the id of an ACK. Anything else is ignored.
  unfoldable pub ack_of_frame : Frame → Option Text
  ack_of_frame raw = elim (wire.unmarshal raw) [ none ↦ none | some env ↦ ack_of_envelope env ]

-- ===== src/RelayChain.antt =====
-- The class RelayStateChain of src/relays/relaystate.h and relaystate.cpp, and the messages that it
-- reads from the database.
pub mod Handlers
pub mod Complaints
pub mod Validation
pub mod Batch
pub mod Undo
pub mod UndoJoin
pub mod Examples
use flex.Common.{ℕ, Bool, Option, List, [], ◌∷◌, get_or}
use flex.StdMap.{Map, Set}
use flex.RelayState.{RelayState}
use flex.RelayState.Platform.{Point}

-- The strings under msgdata[hash]["type"] that the class compares with.
pub data MessageType : Type 0 where
  join leave successor succession trader_complaint complaint_refutation : MessageType
  trader_complaint_refutation relay_complaint_refutation : MessageType
  other : MessageType

pub record RelayJoinMessage : Type 0 where
  pub relay_number : ℕ
  pub relay_pubkey : Point
  pub preceding_relay_join_hash : ℕ

pub record RelayLeaveMessage : Type 0 where
  pub relay_leaving : Point
  pub successor : Point

pub record FutureSuccessorSecretMessage : Type 0 where
  pub credit_hash : ℕ
  pub successor_join_hash : ℕ

pub record SuccessionMessage : Type 0 where
  pub dead_relay_join_hash : ℕ
  pub successor_join_hash : ℕ
  pub executor : Point

pub record TraderComplaint : Type 0 where
  pub message_hash : ℕ

pub record ComplaintFromFutureSuccessor : Type 0 where
  pub future_successor_msg_hash : ℕ

-- RefutationOfTraderComplaint, RefutationOfRelayComplaint and RefutationOfComplaintFromFutureSuccessor
pub record Refutation : Type 0 where
  pub complaint_hash : ℕ

-- What the class reads of msgdata, creditdata and relaydata, and of the classes whose headers are not
-- in the repository or rest on signatures. A property that is not stored reads as the default object.
pub record Data : Type 0 where
  -- msgdata[hash]["type"]
  pub message_type : ℕ → MessageType
  -- msgdata[hash]["join"], and so on
  pub joins : ℕ → Option RelayJoinMessage
  pub default_join : RelayJoinMessage
  pub leaves : ℕ → Option RelayLeaveMessage
  pub successors : ℕ → Option FutureSuccessorSecretMessage
  pub successions : ℕ → Option SuccessionMessage
  pub trader_complaints : ℕ → Option TraderComplaint
  -- msgdata[hash]["complaint"]
  pub complaints : ℕ → Option TraderComplaint
  pub trader_complaint_refutations : ℕ → Option Refutation
  pub relay_complaint_refutations : ℕ → Option Refutation
  pub complaints_future_successor : ℕ → Option ComplaintFromFutureSuccessor
  pub future_successor_refutations : ℕ → Option Refutation
  -- TradeSecretMessage(msgdata[hash]["secret"]).VerificationKey()
  pub secret_key : ℕ → Point
  -- RelayComplaint(msgdata[hash]["relay_complaint"]).VerificationKey()
  pub relay_complaint_key : ℕ → Point
  -- the key data of creditdata[hash]["mined_credit"]
  pub credit_key : ℕ → Point
  -- relaydata[hash]["accepted_join"]
  pub accepted_join : ℕ → ℕ
  -- RelayJoinMessage: VerificationKey(), GetHash160() and operator<
  pub join_verification_key : RelayJoinMessage → Point
  pub join_hash160 : RelayJoinMessage → ℕ
  pub join_before : RelayJoinMessage → RelayJoinMessage → Bool
  -- TraderComplaint::VerifySignature, RefutationOfTraderComplaint::Validate
  pub verify_signature : TraderComplaint → Bool
  pub validate_refutation : Refutation → Bool
  -- the conversion of a number to a key in state.relays.count(msg.relay_number)
  pub point_of_number : ℕ → Point

pub record RelayStateChain : Type 0 where
  pub state : RelayState
  pub handled_messages : Set
  -- relaydata[relay]["succession_msgs"]
  pub succession_msgs : Map Set

-- msgdata[hash]["join"]
unfoldable pub read_join : Data → ℕ → RelayJoinMessage
read_join d hash = get_or (d.joins hash) d.default_join

abbrev pub empty_leave : RelayLeaveMessage
empty_leave = record { relay_leaving = 0; successor = 0 }

abbrev pub empty_successor : FutureSuccessorSecretMessage
empty_successor = record { credit_hash = 0; successor_join_hash = 0 }

abbrev pub empty_succession : SuccessionMessage
empty_succession = record { dead_relay_join_hash = 0; successor_join_hash = 0; executor = 0 }

-- SuccessionMessage::Deceased
unfoldable pub deceased : Data → SuccessionMessage → Point
unfolding read_join
deceased d msg = (read_join d msg.dead_relay_join_hash).relay_pubkey

-- SuccessionMessage::Successor
unfoldable pub succession_successor : Data → SuccessionMessage → Point
unfolding read_join
succession_successor d msg = (read_join d msg.successor_join_hash).relay_pubkey

-- FutureSuccessorSecretMessage::VerificationKey
unfoldable pub predecessor_key : Data → FutureSuccessorSecretMessage → Point
predecessor_key d msg = d.credit_key msg.credit_hash

-- ComplaintFromFutureSuccessor::JoinHash
unfoldable pub complaint_join_hash : Data → ComplaintFromFutureSuccessor → ℕ
complaint_join_hash d complaint =
    d.accepted_join
      (get_or (d.successors complaint.future_successor_msg_hash) empty_successor).credit_hash

-- ComplaintFromFutureSuccessor::VerificationKey
unfoldable pub complaint_verification_key : Data → ComplaintFromFutureSuccessor → Point
unfolding read_join complaint_join_hash
complaint_verification_key d complaint =
    (read_join d (complaint_join_hash d complaint)).relay_pubkey

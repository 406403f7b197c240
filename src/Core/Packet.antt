-- ===== src/Core/Packet.antt =====
-- The packets and the protocol modes (crates/dldsr-core/src/packet.rs, error.rs).
pub mod Modes
pub mod Encoding
use dl_dsr_rs.Base.{
  ℕ, ◌+◌, mul_u64, Bool, true, false, ◌&&◌, List, map, Option, ◌↔◌, ◌≡◌, Eq, Result, ok, err, ◌>>=◌,
  leb, length, if◌then◌else◌, arith,
}
use dl_dsr_rs.Core.Socket.{Text, bytes, text_beq}

pub data DldsrError : Type 0 where
  label_space_exhausted : DldsrError
  route_not_found : ℕ → DldsrError
  unknown_label : ℕ → DldsrError
  codec : Text → DldsrError

pub data ProtocolMode : Type 0 where
  dsr dl_dsr : ProtocolMode

abbrev pub mode_beq : ProtocolMode → ProtocolMode → Bool
mode_beq dsr dsr = true
mode_beq dl_dsr dl_dsr = true
mode_beq dsr dl_dsr = false
mode_beq dl_dsr dsr = false

pub mode_beq_iff : (a b : ProtocolMode) → (mode_beq a b ≡ true) ↔ (a ≡ b)
mode_beq_iff dsr dsr = ground arith
mode_beq_iff dl_dsr dl_dsr = ground arith
mode_beq_iff dsr dl_dsr = ground arith
mode_beq_iff dl_dsr dsr = ground arith

instance abbrev pub mode_eq : Eq ProtocolMode
mode_eq = record { beq = mode_beq; beq_iff = mode_beq_iff }

-- `u8::to_ascii_lowercase`
abbrev pub to_ascii_lower : ℕ → ℕ
to_ascii_lower c = if leb b'A' c && leb c b'Z' then c + 32 else c

abbrev pub to_ascii_lowercase : Text → Text
to_ascii_lowercase = map to_ascii_lower

-- `ProtocolMode::from_str`; an error carries the text that its message shows.
pub parse_mode : Text → Result Text ProtocolMode
parse_mode value =
    let name = to_ascii_lowercase value in
    if text_beq name (bytes "dsr")
    then ok dsr
    else if text_beq name (bytes "dldsr")
    then ok dl_dsr
    else if text_beq name (bytes "dl-dsr")
    then ok dl_dsr
    else err name

-- `ProtocolMode::fmt`
pub print_mode : ProtocolMode → Text
print_mode dsr = bytes "dsr"
print_mode dl_dsr = bytes "dldsr"

pub record Hello : Type 0 where
  pub src_node_id : ℕ
  pub timestamp_millis : ℕ

pub record HelloReply : Type 0 where
  pub src_node_id : ℕ
  pub dst_node_id : ℕ
  pub assigned_label : ℕ
  pub update_flag : Bool
  pub timestamp_millis : ℕ

pub record Rreq : Type 0 where
  pub src_node_id : ℕ
  pub dst_node_id : ℕ
  pub request_id : ℕ
  pub previous_hop : ℕ
  pub hop_count : ℕ
  pub dsr_path : List ℕ
  pub dldsr_label_path : List ℕ
  pub trace_path : List ℕ
  pub created_at_millis : ℕ

pub record Rrep : Type 0 where
  pub src_node_id : ℕ
  pub dst_node_id : ℕ
  pub request_id : ℕ
  pub dsr_path : List ℕ
  pub dldsr_label_path : List ℕ
  pub trace_path : List ℕ
  pub created_at_millis : ℕ

pub record DataPacket : Type 0 where
  pub src_node_id : ℕ
  pub dst_node_id : ℕ
  pub sequence : ℕ
  pub protocol_mode : ProtocolMode
  pub route_cursor : ℕ
  pub dsr_path : List ℕ
  pub dldsr_label_path : List ℕ
  pub payload : List ℕ
  pub created_at_millis : ℕ

pub record Ack : Type 0 where
  pub src_node_id : ℕ
  pub dst_node_id : ℕ
  pub sequence : ℕ

pub record ErrorPacket : Type 0 where
  pub src_node_id : ℕ
  pub dst_node_id : ℕ
  pub message : Text

pub data Packet : Type 0 where
  hello : Hello → Packet
  hello_reply : HelloReply → Packet
  rreq : Rreq → Packet
  rrep : Rrep → Packet
  data_packet : DataPacket → Packet
  ack : Ack → Packet
  error_packet : ErrorPacket → Packet

-- What `Packet::encode` and `Packet::decode` take from the crate `bincode`; an error is its text.
-- Documented behaviour: what is serialized deserializes to the same value.
pub record Codec : Type 0 where
  pub serialize : Packet → Result Text (List ℕ)
  pub deserialize : List ℕ → Result Text Packet
  pub deserialize-serialize :
      (p : Packet) (bs : List ℕ) → serialize p ≡ ok bs → deserialize bs ≡ ok p

-- `.map_err(|err| DldsrError::Codec(err.to_string()))`
abbrev pub map_codec_err : {A : Type 0} → Result Text A → Result DldsrError A
map_codec_err (ok a) = ok a
map_codec_err (err e) = err (codec e)

-- `Packet::encode`
unfoldable pub encode : Codec → Packet → Result DldsrError (List ℕ)
encode c p = map_codec_err (c.serialize p)

-- `Packet::decode`
unfoldable pub decode : Codec → List ℕ → Result DldsrError Packet
decode c bs = map_codec_err (c.deserialize bs)

-- `Packet::encoded_len`
unfoldable pub encoded_len : Codec → Packet → Result DldsrError ℕ
unfolding encode
encoded_len c p = do bs ← encode c p; ok (length bs)

-- `path_header_bytes`: `size_of::<u32>()` or `size_of::<u8>()` for each hop.
unfoldable pub path_header_bytes : ProtocolMode → ℕ → ℕ
path_header_bytes dsr hops = mul_u64 hops 4
path_header_bytes dl_dsr hops = mul_u64 hops 1

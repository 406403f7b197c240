-- ===== src/Tests/Codecs.antt =====
-- A codec for the tests: acknowledgements alone.
use dl_dsr_rs.Base.{ℕ, ◌≡◌, List, [], ◌∷◌, Result, ok, err, arith}
use dl_dsr_rs.Core.Socket.{Text}
use dl_dsr_rs.Core.Packet.{
  Packet, hello, hello_reply, rreq, rrep, data_packet, ack, error_packet, Codec,
}

-- A codec that knows one kind of packet: an acknowledgement is three numbers.
abbrev pub serialize : Packet → Result Text (List ℕ)
serialize (ack a) = ok (a.src_node_id ∷ a.dst_node_id ∷ a.sequence ∷ [])
serialize (hello _) = err []
serialize (hello_reply _) = err []
serialize (rreq _) = err []
serialize (rrep _) = err []
serialize (data_packet _) = err []
serialize (error_packet _) = err []

abbrev pub deserialize : List ℕ → Result Text Packet
deserialize (x ∷ y ∷ z ∷ []) = ok (ack (record { src_node_id = x; dst_node_id = y; sequence = z }))
deserialize _ = err []

pub deserialize-serialize : (p : Packet) (bs : List ℕ) → serialize p ≡ ok bs → deserialize bs ≡ ok p
deserialize-serialize (ack a) bs h = ground arith
deserialize-serialize (hello _) bs h = cc
deserialize-serialize (hello_reply _) bs h = cc
deserialize-serialize (rreq _) bs h = cc
deserialize-serialize (rrep _) bs h = cc
deserialize-serialize (data_packet _) bs h = cc
deserialize-serialize (error_packet _) bs h = cc

abbrev pub acks : Codec
acks = record {
  serialize = serialize;
  deserialize = deserialize;
  deserialize-serialize = deserialize-serialize;
}

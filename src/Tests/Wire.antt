-- ===== src/Tests/Wire.antt =====
-- A codec for the tests that knows every packet: a list of numbers, with the lengths of the lists
-- in front of them.
use dl_dsr_rs.Base.{
  ℕ, zero, suc, ◌≡◌, refl, Bool, true, false, List, [], ◌∷◌, ◌++◌, take, drop, length, Result, ok,
  err, arith,
}
use dl_dsr_rs.Core.Socket.{Text}
use dl_dsr_rs.Core.Packet.{
  ProtocolMode, dsr, dl_dsr, Packet, hello, hello_reply, rreq, rrep, data_packet, ack, error_packet,
  Codec,
}

take-length : (xs ys : List ℕ) → take (length xs) (xs ++ ys) ≡ xs
take-length [] ys = refl
take-length (x ∷ xs) ys = ground (arith, take-length xs ys)

drop-length : (xs ys : List ℕ) → drop (length xs) (xs ++ ys) ≡ ys
drop-length [] ys = refl
drop-length (x ∷ xs) ys = drop-length xs ys

abbrev pub flag : Bool → ℕ
flag true = 1
flag false = 0

abbrev pub unflag : ℕ → Bool
unflag zero = false
unflag (suc _) = true

abbrev pub mode_number : ProtocolMode → ℕ
mode_number dsr = 0
mode_number dl_dsr = 1

abbrev pub number_mode : ℕ → ProtocolMode
number_mode zero = dsr
number_mode (suc _) = dl_dsr

abbrev pub write : Packet → List ℕ
write (hello h) = 0 ∷ h.src_node_id ∷ h.timestamp_millis ∷ []
write (hello_reply r) =
    1
    ∷ r.src_node_id
    ∷ r.dst_node_id
    ∷ r.assigned_label
    ∷ flag r.update_flag
    ∷ r.timestamp_millis
    ∷ []
write (rreq q) =
    2
    ∷ q.src_node_id
    ∷ q.dst_node_id
    ∷ q.request_id
    ∷ q.previous_hop
    ∷ q.hop_count
    ∷ q.created_at_millis
    ∷ length q.dsr_path
    ∷ length q.dldsr_label_path
    ∷ (q.dsr_path ++ (q.dldsr_label_path ++ q.trace_path))
write (rrep r) =
    3
    ∷ r.src_node_id
    ∷ r.dst_node_id
    ∷ r.request_id
    ∷ r.created_at_millis
    ∷ length r.dsr_path
    ∷ length r.dldsr_label_path
    ∷ (r.dsr_path ++ (r.dldsr_label_path ++ r.trace_path))
write (data_packet p) =
    4
    ∷ p.src_node_id
    ∷ p.dst_node_id
    ∷ p.sequence
    ∷ mode_number p.protocol_mode
    ∷ p.route_cursor
    ∷ p.created_at_millis
    ∷ length p.dsr_path
    ∷ length p.dldsr_label_path
    ∷ (p.dsr_path ++ (p.dldsr_label_path ++ p.payload))
write (ack a) = 5 ∷ a.src_node_id ∷ a.dst_node_id ∷ a.sequence ∷ []
write (error_packet e) = 6 ∷ e.src_node_id ∷ e.dst_node_id ∷ e.message

abbrev pub read : List ℕ → Result Text Packet
read (zero ∷ src ∷ ts ∷ []) = ok (hello (record { src_node_id = src; timestamp_millis = ts }))
read ((suc zero) ∷ src ∷ dst ∷ label ∷ update ∷ ts ∷ []) = ok (
    hello_reply (record {
      src_node_id = src;
      dst_node_id = dst;
      assigned_label = label;
      update_flag = unflag update;
      timestamp_millis = ts;
    }))
read ((suc (suc zero)) ∷ src ∷ dst ∷ id ∷ previous ∷ hops ∷ ts ∷ m ∷ n ∷ rest) = ok (
    rreq (record {
      src_node_id = src;
      dst_node_id = dst;
      request_id = id;
      previous_hop = previous;
      hop_count = hops;
      dsr_path = take m rest;
      dldsr_label_path = take n (drop m rest);
      trace_path = drop n (drop m rest);
      created_at_millis = ts;
    }))
read ((suc (suc (suc zero))) ∷ src ∷ dst ∷ id ∷ ts ∷ m ∷ n ∷ rest) = ok (
    rrep (record {
      src_node_id = src;
      dst_node_id = dst;
      request_id = id;
      dsr_path = take m rest;
      dldsr_label_path = take n (drop m rest);
      trace_path = drop n (drop m rest);
      created_at_millis = ts;
    }))
read ((suc (suc (suc (suc zero)))) ∷ src ∷ dst ∷ sequence ∷ mode ∷ cursor ∷ ts ∷ m ∷ n ∷ rest) =
    ok (
      data_packet (record {
        src_node_id = src;
        dst_node_id = dst;
        sequence = sequence;
        protocol_mode = number_mode mode;
        route_cursor = cursor;
        dsr_path = take m rest;
        dldsr_label_path = take n (drop m rest);
        payload = drop n (drop m rest);
        created_at_millis = ts;
      }))
read ((suc (suc (suc (suc (suc zero))))) ∷ src ∷ dst ∷ sequence ∷ []) =
    ok (ack (record { src_node_id = src; dst_node_id = dst; sequence = sequence }))
read ((suc (suc (suc (suc (suc (suc zero)))))) ∷ src ∷ dst ∷ message) =
    ok (error_packet (record { src_node_id = src; dst_node_id = dst; message = message }))
read _ = err []

pub three :
    (xs ys zs : List ℕ)
    → (take (length xs) (xs ++ (ys ++ zs)) ≡ xs)
      × (take (length ys) (drop (length xs) (xs ++ (ys ++ zs))) ≡ ys)
      × (drop (length ys) (drop (length xs) (xs ++ (ys ++ zs))) ≡ zs)
three xs ys zs = (
  take-length xs (ys ++ zs),
  rw (drop-length xs (ys ++ zs)) (take-length ys zs),
  rw (drop-length xs (ys ++ zs)) (drop-length ys zs),
)

pub read-write : (p : Packet) → read (write p) ≡ ok p
read-write (hello h) = refl
read-write (hello_reply r) = ground arith
read-write (rreq q) = ground (arith, three q.dsr_path q.dldsr_label_path q.trace_path)
read-write (rrep r) = ground (arith, three r.dsr_path r.dldsr_label_path r.trace_path)
read-write (data_packet p) = ground (arith, three p.dsr_path p.dldsr_label_path p.payload)
read-write (ack a) = refl
read-write (error_packet e) = refl

pub read_back :
    (p : Packet) (bs : List ℕ)
    → ◌≡◌ {A = Result Text (List ℕ)} (ok (write p)) (ok bs)
    → read bs ≡ ok p
read_back p bs e = ground (arith, read-write p)

abbrev pub wire : Codec
wire = record {
  serialize = λ p. ok (write p);
  deserialize = read;
  deserialize-serialize = read_back;
}

-- ===== src/Core/Packet/Encoding.antt =====
-- `Packet::decode` after `Packet::encode`, over what `bincode` documents.
use dl_dsr_rs.Base.{ℕ, ◌≡◌, List, ok, inl, inr, Result-cases, length, arith}
use dl_dsr_rs.Core.Packet.{Packet, Codec, encode, decode, encoded_len}

-- Where `bincode` restores what it serializes, a packet that is encoded decodes to itself, and
-- its `encoded_len` is the number of its bytes.
pub decode-encode :
    (c : Codec) (p : Packet) (bs : List ℕ)
    → encode c p ≡ ok bs
    → (decode c bs ≡ ok p) × (encoded_len c p ≡ ok (length bs))
unfolding encode decode encoded_len
decode-encode c p bs h = elim (Result-cases (c.serialize p)) [
  | inr (e, s) ↦ absurd (ground arith)
  | inl (b, s) ↦ ground (arith, c.deserialize-serialize p b)
]

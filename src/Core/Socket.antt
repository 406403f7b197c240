-- ===== src/Core/Socket.antt =====
-- `std::net::SocketAddr`, of which the program uses copies and the equality test, and text as the
-- bytes of its UTF-8.
use dl_dsr_rs.Base.{ℕ, ◌≡◌, ◌↔◌, Bool, true, false, ◌&&◌, List, [], ◌∷◌, Eq, nat_beq, String, arith}
use Prim.Native.Char.{code}

-- An IPv4 address and a port; or an IPv6 address, a port, the flow information and the scope.
pub data SocketAddr : Type 0 where
  v4 : ℕ → ℕ → SocketAddr
  v6 : ℕ → ℕ → ℕ → ℕ → SocketAddr

abbrev pub addr_beq : SocketAddr → SocketAddr → Bool
addr_beq (v4 a p) (v4 b q) = nat_beq a b && nat_beq p q
addr_beq (v6 a p f s) (v6 b q g t) = nat_beq a b && (nat_beq p q && (nat_beq f g && nat_beq s t))
addr_beq (v4 _ _) (v6 _ _ _ _) = false
addr_beq (v6 _ _ _ _) (v4 _ _) = false

pub addr_beq_iff : (a b : SocketAddr) → (addr_beq a b ≡ true) ↔ (a ≡ b)
addr_beq_iff (v4 a p) (v4 b q) = ground arith
addr_beq_iff (v6 a p f s) (v6 b q g t) = ground arith
addr_beq_iff (v4 a p) (v6 b q g t) = ground arith
addr_beq_iff (v6 a p f s) (v4 b q) = ground arith

instance abbrev pub addr_eq : Eq SocketAddr
addr_eq = record { beq = addr_beq; beq_iff = addr_beq_iff }

-- `String` and `&str`, as bytes.
abbrev pub Text : Type 0
Text = List ℕ

-- The bytes of an ASCII literal.
abbrev pub bytes : String → Text
bytes String.[] = []
bytes (String.◌∷◌ c s) = code c ∷ bytes s

abbrev pub text_beq : Text → Text → Bool
text_beq [] [] = true
text_beq (a ∷ s) (b ∷ t) = nat_beq a b && text_beq s t
text_beq [] (_ ∷ _) = false
text_beq (_ ∷ _) [] = false

pub text_beq_iff : (s t : Text) → (text_beq s t ≡ true) ↔ (s ≡ t)
text_beq_iff [] [] = ground arith
text_beq_iff (a ∷ s) (b ∷ t) = ground (arith, text_beq_iff s t)
text_beq_iff [] (b ∷ t) = ground arith
text_beq_iff (a ∷ s) [] = ground arith

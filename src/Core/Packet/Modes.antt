-- ===== src/Core/Packet/Modes.antt =====
-- The text of a protocol mode, written and read back.
use dl_dsr_rs.Base.{◌≡◌, refl, ok}
use dl_dsr_rs.Core.Packet.{ProtocolMode, dsr, dl_dsr, parse_mode, print_mode}

-- The text of a mode reads back as that mode.
pub parse-print : (m : ProtocolMode) → parse_mode (print_mode m) ≡ ok m
unfolding parse_mode print_mode
parse-print dsr = refl
parse-print dl_dsr = refl

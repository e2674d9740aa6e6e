-- ===== src/Messages/Codes.antt =====
-- The numbers that stand for a message type and for the broadcast marker.
use tss_libp2p.Prelude.{◌<◌, ◌^◌, ◌≡◌, refl, Bool, true, false, nat_beq, not, arith}
use tss_libp2p.Io.{ok}
use tss_libp2p.Messages.{MessageType, coordination, computation, type_code, bool_code, read_type}

pub type_code-lt : (t : MessageType) → type_code t < 2 ^ 8
type_code-lt coordination = omega arith
type_code-lt computation = omega arith

pub bool_code-lt : (b : Bool) → bool_code b < 2 ^ 8
bool_code-lt true = omega arith
bool_code-lt false = omega arith

pub read_type-type_code : (t : MessageType) → read_type (type_code t) ≡ ok t
read_type-type_code coordination = refl
read_type-type_code computation = refl

pub bool_code-ne-zero : (b : Bool) → not (nat_beq (bool_code b) 0) ≡ b
bool_code-ne-zero true = refl
bool_code-ne-zero false = refl

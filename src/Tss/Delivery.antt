-- ===== src/Tss/Delivery.antt =====
-- A message of the protocol, from one party through the network to another.
use mathlib.Core.Option
use tss_libp2p.Peerset.{Peerset}

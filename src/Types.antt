-- ===== src/Types.antt =====
-- crates/ziggurat-ieee-802154/src/types.rs: network addresses (`u16`), and extended addresses, whose
-- eight bytes are a number with the same order.
use ziggurat.Base.{ℕ}

abbrev pub Nwk : Type 0
Nwk = ℕ

abbrev pub Eui64 : Type 0
Eui64 = ℕ

-- ===== src/Spinel/Frames/RoundTrip.antt =====
-- What a frame is serialized to is parsed back.
use ziggurat.Base.{
  ℕ, zero, suc, ◌+◌, ◌*◌, ◌/◌, ◌%◌, ◌≤◌, ◌<◌, ◌≡◌, refl, sym, ap, ◌∙◌, Bool, true, false, ◌&&◌,
  some, List, [], ◌∷◌, ◌++◌, ltb, ◌==◌, length, ok, arith, any,
}
use ziggurat.Spinel.Packed.{u21_max}
use ziggurat.Spinel.Packed.RoundTrip.{unpack-pack}
use ziggurat.Spinel.Frames.{
  is_command, is_property, within, property_runs, SpinelHeader, header_of, header_byte, SpinelFrame,
  checked_parts, frame_of, parse_spinel_parts, frame_from_bytes, frame_to_bytes,
  SpinelFramePropValueIs, prop_value_is_from_bytes, prop_value_is_to_bytes,
}

-- A test of every byte.
every_byte : ℕ → Bool
every_byte zero = true
every_byte (suc n) = every_byte n && header_byte (header_of n) == n

every_byte_holds : (n b : ℕ) → every_byte n ≡ true → b < n → header_byte (header_of b) ≡ b
unfolding every_byte
every_byte_holds zero b e l = absurd (omega arith)
every_byte_holds (suc n) b e l = ground (arith, every_byte_holds n b)

byte-header : (b : ℕ) → b < 256 → header_byte (header_of b) ≡ b
unfolding every_byte
byte-header b l = every_byte_holds 256 b refl l

-- The fields fit their bits.
pub record Fits (h : SpinelHeader) : Type 0 where
  pub flag : h.flag < 4
  pub network_link_id : h.network_link_id < 4
  pub transaction_id : h.transaction_id < 16

joined_fields :
    (h : SpinelHeader)
    → Fits h
    → header_of (h.flag * 64 + h.network_link_id * 16 + h.transaction_id) ≡ h
joined_fields h f =
    let b = h.flag * 64 + h.network_link_id * 16 + h.transaction_id in
    let top : b / 64 % 4 ≡ h.flag = omega (arith, f.flag, f.network_link_id, f.transaction_id) in
    let middle : b / 16 % 4 ≡ h.network_link_id =
      omega (arith, f.flag, f.network_link_id, f.transaction_id) in
    let low : b % 16 ≡ h.transaction_id = omega (arith, f.transaction_id) in
    rw (top, middle, low) refl

header-byte : (h : SpinelHeader) → Fits h → header_of (header_byte h) ≡ h
header-byte h f =
    let b = h.flag * 64 + h.network_link_id * 16 + h.transaction_id in
    let small : b < 256 = omega (arith, f.flag, f.network_link_id, f.transaction_id) in
    let same = joined_fields h f in
    ap (λ x. header_of (header_byte x)) (sym same) ∙ ap header_of (byte-header b small) ∙ same

-- What a frame needs to be taken: its header's bits, a known command and some payload.
pub record Sendable (f : SpinelFrame) : Type 0 where
  pub fits : Fits f.header
  pub spinel : f.header.flag ≡ 2
  pub known : is_command f.command_id ≡ true
  pub some_payload : 0 < length f.payload

parts_parsed :
    (h : SpinelHeader) (command_id : ℕ) (payload : List ℕ)
    → Fits h
    → h.flag ≡ 2
    → is_command command_id ≡ true
    → 0 < length payload
    → frame_from_bytes (header_byte h ∷ command_id ∷ payload)
      ≡ ok (record { header = h; command_id = command_id; payload = payload })
unfolding frame_from_bytes parse_spinel_parts
parts_parsed h c [] f e k l = absurd (omega arith)
parts_parsed h c (p ∷ ps) f e k l =
    let spinel : (h.flag == 2) ≡ true = ground (arith, e) in
    ap (λ x. frame_of (checked_parts (ok x) c (p ∷ ps))) (header-byte h f) ∙ rw (spinel, k) refl

-- A frame is parsed back from its bytes.
pub parse-serialize : (f : SpinelFrame) → Sendable f → frame_from_bytes (frame_to_bytes f) ≡ ok f
unfolding frame_to_bytes
parse-serialize f s =
    parts_parsed f.header f.command_id f.payload s.fits s.spinel s.known s.some_payload

below_runs :
    (runs : List (ℕ × ℕ)) (top id : ℕ)
    → any (λ r. ltb top r.1) runs ≡ false
    → any (within id) runs ≡ true
    → id ≤ top
below_runs [] top id a e = absurd (ground arith)
below_runs ((first, last) ∷ runs) top id a e = ground (arith, below_runs runs top id)

property_bounded : (id : ℕ) → is_property id ≡ true → id < u21_max
unfolding is_property
property_bounded id e = omega (arith, below_runs property_runs 16385 id refl e)

-- A property update of a known property is parsed back from its bytes.
pub prop_value_is-bytes :
    (p : SpinelFramePropValueIs)
    → is_property p.property_id ≡ true
    → (bytes : List ℕ) × (prop_value_is_to_bytes p ≡ some bytes)
      × (prop_value_is_from_bytes bytes ≡ ok p)
unfolding prop_value_is_to_bytes prop_value_is_from_bytes
prop_value_is-bytes p e =
    let (bytes, packed, read) =
      unpack-pack p.property_id p.value (property_bounded p.property_id e) in
    (bytes ++ p.value, rw packed refl, rw (read, e) refl)

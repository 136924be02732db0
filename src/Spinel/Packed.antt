-- ===== src/Spinel/Packed.antt =====
-- crates/ziggurat-spinel/src/lib.rs: the packed 21-bit integers. Bytes are numbers; `& 0x7F` is the
-- remainder by 128, and `|=` of a group of bits above all others is the sum.
pub mod RoundTrip
use ziggurat.Base.{
  ℕ, zero, suc, ◌+◌, ◌*◌, ◌/◌, ◌%◌, ◌^◌, ◌≡◌, Bool, true, false, Option, none, some, List, [], ◌∷◌,
  if◌then◌else◌, ltb, leb, ◌==◌, Result, ok, err,
}

-- `U21_MAX`.
abbrev pub u21_max : ℕ
u21_max = 2097152

pub data SpinelFrameParsingError : Type 0 where
  -- The expected number of bytes and that of the payload.
  payload_too_short : ℕ → ℕ → SpinelFrameParsingError
  not_spinel_frame : ℕ → SpinelFrameParsingError
  packed_u21_did_not_terminate : SpinelFrameParsingError
  invalid_property_id invalid_command_id : ℕ → SpinelFrameParsingError

-- The loop from a byte's index on, with the bits so far.
unfoldable pub deserialize_from : ℕ → ℕ → List ℕ → Result (ℕ × List ℕ) SpinelFrameParsingError
deserialize_from index result [] = err SpinelFrameParsingError.packed_u21_did_not_terminate
deserialize_from index result (byte ∷ bytes) =
    let next = result + byte % 128 * 2 ^ (7 * index) in
    let rest = deserialize_from (index + 1) next bytes in
    if byte / 128 % 2 == 0
    then ok (next, bytes)
    else if leb 2 index
    then err SpinelFrameParsingError.packed_u21_did_not_terminate
    else rest

unfoldable pub packed_uint21_deserialize : List ℕ → Result (ℕ × List ℕ) SpinelFrameParsingError
packed_uint21_deserialize bytes = deserialize_from 0 0 bytes

-- The loop over the groups of seven bits; a `u32` has five at most.
unfoldable pub chunks : ℕ → ℕ → List ℕ
chunks zero temp = []
chunks (suc n) temp =
    let rest = chunks n (temp / 128) in if temp == 0 then [] else (temp % 128 + 128) ∷ rest

-- `chunks[len - 1] &= 0x7F`.
unfoldable pub clear_last : List ℕ → List ℕ
clear_last [] = []
clear_last (byte ∷ []) = byte % 128 ∷ []
clear_last (byte ∷ next ∷ bytes) = byte ∷ clear_last (next ∷ bytes)

-- `none` is the panic.
unfoldable pub packed_uint21_to_bytes : ℕ → Option (List ℕ)
packed_uint21_to_bytes value =
    if value == 0
    then some (0 ∷ [])
    else if ltb u21_max value
    then none
    else some (clear_last (chunks 5 value))

-- ===== src/Tests/Frames.antt =====
-- Inputs for the theorems on the serial framing, under a checksum that is always zero.
use ziggurat.Base.{ℕ, ◌≡◌, refl, false, some, Option, List, [], ◌∷◌, ◌++◌, arith, ok, err}
use ziggurat.Spinel.Packed.{
  SpinelFrameParsingError, packed_uint21_to_bytes, packed_uint21_deserialize, deserialize_from,
  chunks, clear_last, u21_max,
}
use ziggurat.Spinel.Packed.RoundTrip.{unpack-pack}
use ziggurat.Spinel.Stream.{SpinelProtocol, next_frame, next_frame_into}
use ziggurat.Spinel.Stream.Delivery.{next_frame_into-ends}

abbrev no_crc : List ℕ → ℕ
no_crc bytes = 0

unpack-pack_example :
    (bytes : List ℕ) × (packed_uint21_to_bytes 300 ≡ some bytes)
    × (packed_uint21_deserialize (bytes ++ 9 ∷ []) ≡ ok (300, 9 ∷ []))
unpack-pack_example = unpack-pack 300 (9 ∷ []) (omega arith)

-- The bound itself is serialized to four bytes, which are refused.
u21_max_is_refused :
    (packed_uint21_to_bytes u21_max ≡ some (128 ∷ 128 ∷ 128 ∷ 1 ∷ []))
    × (packed_uint21_deserialize (128 ∷ 128 ∷ 128 ∷ 1 ∷ [])
        ≡ err SpinelFrameParsingError.packed_u21_did_not_terminate)
unfolding packed_uint21_to_bytes chunks clear_last packed_uint21_deserialize deserialize_from
u21_max_is_refused = (refl, refl)

abbrev half_a_frame : SpinelProtocol
half_a_frame = record { buffer = 126 ∷ 5 ∷ []; ignoring_until_next_flag = false }

next_frame_into-ends_example :
    (r : SpinelProtocol × Option (List ℕ)) × (next_frame no_crc 3 half_a_frame ≡ some r)
    × (next_frame_into no_crc half_a_frame ≡ some r)
next_frame_into-ends_example = next_frame_into-ends no_crc 3 half_a_frame (omega arith)

-- ===== src/Spinel/Frames.antt =====
-- crates/ziggurat-spinel/src/lib.rs: the header and the frames of the Spinel protocol. The enums of the
-- protocol (`SpinelCommandId`, `SpinelPropertyId`, `SpinelStatus`) stand for their discriminants, and
-- `try_from` is a test of the number.
pub mod RoundTrip
use mathlib.Core.Option
use Prim.Native.Nat.{bit_or}
use ziggurat.Base.{
  ℕ, ◌+◌, ◌*◌, ◌/◌, ◌%◌, ◌≡◌, Bool, true, false, ◌&&◌, ◌||◌, Option, none, some, List, [], ◌∷◌,
  ◌++◌, if◌then◌else◌, ltb, leb, ◌==◌, length, Result, ok, err, any,
}
use ziggurat.Spinel.Packed.{
  SpinelFrameParsingError, packed_uint21_deserialize, packed_uint21_to_bytes,
}

-- The commands are numbered from 0 to 23 without a gap.
abbrev pub is_command : ℕ → Bool
is_command id = leb id 23

abbrev pub within : ℕ → ℕ × ℕ → Bool
within id (first, last) = leb first id && leb id last

-- The numbers of the properties, as runs.
abbrev pub property_runs : List (ℕ × ℕ)
property_runs =
    (0, 11)
    ∷ (32, 39)
    ∷ (48, 60)
    ∷ (64, 75)
    ∷ (80, 94)
    ∷ (96, 99)
    ∷ (101, 101)
    ∷ (112, 114)
    ∷ (4096, 4096)
    ∷ (4098, 4103)
    ∷ (4608, 4613)
    ∷ (4864, 4865)
    ∷ (4867, 4869)
    ∷ (5376, 5398)
    ∷ (15296, 15296)
    ∷ (16384, 16385)
    ∷ []

pub is_property : ℕ → Bool
is_property id = any (within id) property_runs

-- The results, and from 112 on the resets.
abbrev pub is_status : ℕ → Bool
is_status id = leb id 24 || within id (112, 120)

abbrev pub is_reset : ℕ → Bool
is_reset status = leb 112 status

abbrev pub last_status : ℕ
last_status = 0

abbrev pub prop_value_is : ℕ
prop_value_is = 6

pub record SpinelHeader : Type 0 where
  pub flag : ℕ
  pub network_link_id : ℕ
  pub transaction_id : ℕ

abbrev pub header_of : ℕ → SpinelHeader
header_of byte = record {
  flag = byte / 64 % 4;
  network_link_id = byte / 16 % 4;
  transaction_id = byte % 16;
}

abbrev pub header_from_bytes : List ℕ → Result SpinelHeader SpinelFrameParsingError
header_from_bytes [] = err (SpinelFrameParsingError.payload_too_short 1 0)
header_from_bytes (byte ∷ bytes) = ok (header_of byte)

-- The shifts are those of a `u8`.
abbrev pub header_byte : SpinelHeader → ℕ
header_byte h = bit_or (bit_or (h.flag * 64 % 256) (h.network_link_id * 16 % 256)) h.transaction_id

pub record SpinelFrame : Type 0 where
  pub header : SpinelHeader
  pub command_id : ℕ
  pub payload : List ℕ

-- The checks of a header, on a frame of the given parts.
abbrev pub checked_parts :
    Result SpinelHeader SpinelFrameParsingError
    → ℕ
    → List ℕ
    → Result (SpinelHeader × (ℕ × List ℕ)) SpinelFrameParsingError
checked_parts (err e) command_id payload = err e
checked_parts (ok header) command_id payload =
    if header.flag == 2
    then if is_command command_id
      then ok (header, (command_id, payload))
      else err (SpinelFrameParsingError.invalid_command_id command_id)
    else err (SpinelFrameParsingError.not_spinel_frame header.flag)

unfoldable pub parse_spinel_parts :
    List ℕ → Result (SpinelHeader × (ℕ × List ℕ)) SpinelFrameParsingError
parse_spinel_parts [] = err (SpinelFrameParsingError.payload_too_short 3 0)
parse_spinel_parts (a ∷ []) = err (SpinelFrameParsingError.payload_too_short 3 1)
parse_spinel_parts (a ∷ b ∷ []) = err (SpinelFrameParsingError.payload_too_short 3 2)
parse_spinel_parts (a ∷ b ∷ c ∷ bytes) = checked_parts (header_from_bytes (a ∷ [])) b (c ∷ bytes)

abbrev pub frame_of :
    Result (SpinelHeader × (ℕ × List ℕ)) SpinelFrameParsingError
    → Result SpinelFrame SpinelFrameParsingError
frame_of (err e) = err e
frame_of (ok (header, (command_id, payload))) =
    ok (record { header = header; command_id = command_id; payload = payload })

unfoldable pub frame_from_bytes : List ℕ → Result SpinelFrame SpinelFrameParsingError
frame_from_bytes bytes = frame_of (parse_spinel_parts bytes)

unfoldable pub frame_to_bytes : SpinelFrame → List ℕ
frame_to_bytes f = header_byte f.header ∷ f.command_id ∷ f.payload

pub record SpinelFramePropValueIs : Type 0 where
  pub property_id : ℕ
  pub value : List ℕ

abbrev pub property_of :
    Result (ℕ × List ℕ) SpinelFrameParsingError
    → Result SpinelFramePropValueIs SpinelFrameParsingError
property_of (err e) = err e
property_of (ok (property_id, remaining)) =
    if is_property property_id
    then ok (record { property_id = property_id; value = remaining })
    else err (SpinelFrameParsingError.invalid_property_id property_id)

unfoldable pub prop_value_is_from_bytes :
    List ℕ → Result SpinelFramePropValueIs SpinelFrameParsingError
prop_value_is_from_bytes bytes = property_of (packed_uint21_deserialize bytes)

-- `none` is the panic of the packed integer.
unfoldable pub prop_value_is_to_bytes : SpinelFramePropValueIs → Option (List ℕ)
prop_value_is_to_bytes p =
    Option.map (λ bytes. bytes ++ p.value) (packed_uint21_to_bytes p.property_id)

-- ===== src/Spinel/Hdlc.antt =====
-- crates/ziggurat-spinel/src/lib.rs: the framing of HDLC-lite, without the flags. The checksum's update
-- of the `crc_all` crate is the parameter `update_crc`, from the initial value over the bytes.
pub mod RoundTrip
use mathlib.Core.Option
use ziggurat.Base.{
  ℕ, ◌+◌, ◌-◌, ◌*◌, ◌/◌, ◌%◌, ◌≡◌, Bool, true, false, ◌||◌, Option, none, some, List, [], ◌∷◌, ◌++◌,
  if◌then◌else◌, ltb, ◌==◌, length, Result, ok, err, u16_max,
}

pub data HdlcLiteFrameParsingError : Type 0 where
  bad_escape_byte : ℕ → HdlcLiteFrameParsingError
  -- The expected checksum and that of the data.
  invalid_crc : ℕ → ℕ → HdlcLiteFrameParsingError
  -- Both with the expected number of bytes and that of the frame or the payload.
  frame_too_short payload_too_short : ℕ → ℕ → HdlcLiteFrameParsingError

abbrev pub flag : ℕ
flag = 126

abbrev pub escape : ℕ
escape = 125

-- The bytes of `HdlcSpecial`.
abbrev pub is_special : ℕ → Bool
is_special byte = byte == flag || byte == escape || byte == 17 || byte == 19 || byte == 248

-- `byte ^ 0x20`.
abbrev pub flip : ℕ → ℕ
flip byte = if byte / 32 % 2 == 0 then byte + 32 else byte - 32

abbrev pub push :
    ℕ → Result (List ℕ) HdlcLiteFrameParsingError → Result (List ℕ) HdlcLiteFrameParsingError
push byte (err e) = err e
push byte (ok payload) = ok (byte ∷ payload)

-- The loop over the bytes, with the flag `unescaping`.
unfoldable pub unescape_bytes : Bool → List ℕ → Result (List ℕ) HdlcLiteFrameParsingError
unescape_bytes unescaping [] = ok []
unescape_bytes true (byte ∷ bytes) =
    let rest = unescape_bytes false bytes in
    if is_special (flip byte)
    then push (flip byte) rest
    else err (HdlcLiteFrameParsingError.bad_escape_byte (flip byte))
unescape_bytes false (byte ∷ bytes) =
    let escaped = unescape_bytes true bytes in
    let rest = unescape_bytes false bytes in
    if byte == escape then escaped else if byte == flag then rest else push byte rest

-- The data before the last two bytes, and these; there are none in less than two.
unfoldable pub split_crc : List ℕ → Option (List ℕ × (ℕ × ℕ))
split_crc [] = none
split_crc (a ∷ []) = none
split_crc (a ∷ b ∷ []) = some ([], (a, b))
split_crc (a ∷ b ∷ c ∷ bytes) = Option.map (λ x. (a ∷ x.0, x.1)) (split_crc (b ∷ c ∷ bytes))

abbrev pub from_le_bytes : ℕ × ℕ → ℕ
from_le_bytes (low, high) = low + 256 * high

abbrev pub to_le_bytes : ℕ → List ℕ
to_le_bytes crc = crc % 256 ∷ crc / 256 ∷ []

unfoldable pub escape_bytes : List ℕ → List ℕ
escape_bytes [] = []
escape_bytes (byte ∷ bytes) =
    let rest = escape_bytes bytes in
    if is_special byte then escape ∷ flip byte ∷ rest else byte ∷ rest

module _ (update_crc : List ℕ → ℕ) where
  -- `crc ^= 0xFFFF` on a `u16`.
  abbrev pub checksum : List ℕ → ℕ
  checksum payload = u16_max - update_crc payload

  abbrev pub check_crc : ℕ → Option (List ℕ × (ℕ × ℕ)) → Result (List ℕ) HdlcLiteFrameParsingError
  check_crc got none = err (HdlcLiteFrameParsingError.payload_too_short 2 got)
  check_crc got (some (payload, crc)) =
      if checksum payload == from_le_bytes crc
      then ok payload
      else err (HdlcLiteFrameParsingError.invalid_crc (from_le_bytes crc) (checksum payload))

  abbrev pub checked :
      Result (List ℕ) HdlcLiteFrameParsingError → Result (List ℕ) HdlcLiteFrameParsingError
  checked (err e) = err e
  checked (ok payload) = check_crc (length payload) (split_crc payload)

  unfoldable pub hdlc_unescape : List ℕ → Result (List ℕ) HdlcLiteFrameParsingError
  hdlc_unescape bytes =
      if ltb (length bytes) 2
      then err (HdlcLiteFrameParsingError.frame_too_short 2 (length bytes))
      else checked (unescape_bytes false bytes)

  unfoldable pub hdlc_escape : List ℕ → List ℕ
  hdlc_escape payload = escape_bytes (payload ++ to_le_bytes (checksum payload))

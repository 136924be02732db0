-- ===== src/Spinel/Hdlc/RoundTrip.antt =====
-- What is escaped comes back, and holds no flag.
use mathlib.Core.Option
use ziggurat.Base.{
  ℕ, ◌/◌, ◌%◌, ◌≤◌, ◌≡◌, refl, ap, ◌∙◌, true, false, some, List, [], ◌∷◌, ◌++◌, ltb, ◌==◌, length,
  ok, arith, inl, inr, Bool-cases, All,
}
use ziggurat.Spinel.Hdlc.{
  flag, escape, is_special, flip, push, unescape_bytes, split_crc, to_le_bytes, escape_bytes,
  checksum, hdlc_unescape, hdlc_escape,
}

flip-flip : (b : ℕ) → flip (flip b) ≡ b
flip-flip b = ground arith

unescape-escaped :
    (b : ℕ) (bytes : List ℕ)
    → is_special b ≡ true
    → unescape_bytes false (escape ∷ flip b ∷ bytes) ≡ push b (unescape_bytes false bytes)
unfolding unescape_bytes
unescape-escaped b bytes h = rw (flip-flip b, h) refl

unescape-plain :
    (b : ℕ) (bytes : List ℕ)
    → is_special b ≡ false
    → unescape_bytes false (b ∷ bytes) ≡ push b (unescape_bytes false bytes)
unfolding unescape_bytes
unescape-plain b bytes h = ground arith

unescape-escape : (payload : List ℕ) → unescape_bytes false (escape_bytes payload) ≡ ok payload
unfolding escape_bytes unescape_bytes
unescape-escape [] = refl
unescape-escape (b ∷ payload) = elim (Bool-cases (is_special b)) [
  | inl special ↦
      rw (special, escape_bytes)
        (unescape-escaped b (escape_bytes payload) special ∙ ap (push b) (unescape-escape payload))
  | inr plain ↦
      rw (plain, escape_bytes)
        (unescape-plain b (escape_bytes payload) plain ∙ ap (push b) (unescape-escape payload))
]

long_escape : (bytes : List ℕ) → length bytes ≤ length (escape_bytes bytes)
unfolding escape_bytes
long_escape [] = omega arith
long_escape (b ∷ bytes) = ground (arith, long_escape bytes)

long_append : (payload : List ℕ) (a b : ℕ) → 2 ≤ length (payload ++ a ∷ b ∷ [])
long_append [] a b = omega arith
long_append (x ∷ payload) a b = omega (arith, long_append payload a b)

split_cons :
    (x : ℕ) (bytes : List ℕ)
    → 2 ≤ length bytes
    → split_crc (x ∷ bytes) ≡ Option.map (λ y. (x ∷ y.0, y.1)) (split_crc bytes)
unfolding split_crc
split_cons x [] h = absurd (omega arith)
split_cons x (b ∷ []) h = absurd (omega arith)
split_cons x (b ∷ c ∷ bytes) h = refl

split-append :
    (payload : List ℕ) (a b : ℕ) → split_crc (payload ++ a ∷ b ∷ []) ≡ some (payload, (a, b))
unfolding split_crc
split-append [] a b = refl
split-append (x ∷ payload) a b =
    split_cons x (payload ++ a ∷ b ∷ []) (long_append payload a b)
    ∙ ap (Option.map (λ y. (x ∷ y.0, y.1))) (split-append payload a b)

-- No byte of an escaped frame is a flag.
pub escape-Unflagged : (payload : List ℕ) → All (λ b. (b == flag) ≡ false) (escape_bytes payload)
unfolding escape_bytes
escape-Unflagged [] = tt
escape-Unflagged (b ∷ payload) = elim (Bool-cases (is_special b)) [
  | inl special ↦ rw (special, escape_bytes) (refl, (ground arith, escape-Unflagged payload))
  | inr plain ↦ rw (plain, escape_bytes) (ground arith, escape-Unflagged payload)
]

module _ (update_crc : List ℕ → ℕ) where
  -- An escaped frame comes back, with its checksum taken off.
  pub unescape-escape_frame :
      (payload : List ℕ) → hdlc_unescape update_crc (hdlc_escape update_crc payload) ≡ ok payload
  unfolding hdlc_unescape hdlc_escape
  unescape-escape_frame payload =
      let crc = checksum update_crc payload in
      let framed = payload ++ to_le_bytes crc in
      let long : ltb (length (escape_bytes framed)) 2 ≡ false =
        ground (arith, long_escape framed, long_append payload (crc % 256) (crc / 256)) in
      rw (long, unescape-escape framed, split-append payload (crc % 256) (crc / 256)) (ground arith)

-- ===== src/Spinel/Packed/RoundTrip.antt =====
-- What is packed comes back.
use ziggurat.Base.{
  ℕ, zero, suc, ◌+◌, ◌*◌, ◌/◌, ◌%◌, ◌^◌, ◌<◌, ◌≤◌, ◌≡◌, refl, ◌∙◌, ap, some, List, [], ◌∷◌, ◌++◌,
  ltb, Result, ok, arith, inl, inr, Bool-cases,
}
use ziggurat.Spinel.Packed.{
  SpinelFrameParsingError, u21_max, deserialize_from, packed_uint21_deserialize, chunks, clear_last,
  packed_uint21_to_bytes,
}

-- The groups of a number, the last without its continuation bit.
abbrev packed_chunks : ℕ → ℕ → List ℕ
packed_chunks n temp = clear_last (chunks n temp)

no_chunks : (n : ℕ) → chunks n 0 ≡ []
unfolding chunks
no_chunks zero = refl
no_chunks (suc n) = refl

last_chunk : (n v : ℕ) → 0 < v → v < 128 → packed_chunks (suc n) v ≡ v ∷ []
unfolding chunks clear_last
last_chunk n v p h =
    let top : v / 128 ≡ 0 = omega arith in
    let empty : chunks n (v / 128) ≡ [] = ap (chunks n) top ∙ no_chunks n in ground (arith, empty)

more_chunks :
    (n v : ℕ)
    → 128 ≤ v
    → packed_chunks (suc (suc n)) v ≡ (v % 128 + 128) ∷ packed_chunks (suc n) (v / 128)
unfolding chunks clear_last
more_chunks n v p = ground arith

read_last :
    (index r v : ℕ) (rest : List ℕ)
    → v < 128
    → deserialize_from index r (v ∷ rest) ≡ ok (r + v * 2 ^ (7 * index), rest)
unfolding deserialize_from
read_last index r v rest h = ground arith

read_more :
    (index r v : ℕ) (rest : List ℕ)
    → index < 2
    → deserialize_from index r ((v % 128 + 128) ∷ rest)
      ≡ deserialize_from (index + 1) (r + v % 128 * 2 ^ (7 * index)) rest
unfolding deserialize_from
read_more index r v rest h = ground arith

-- The number is read from its groups, at a place whose remaining groups it fits.
reads_last :
    (n index r v : ℕ) (rest : List ℕ)
    → 0 < v
    → v < 128
    → deserialize_from index r (packed_chunks (suc n) v ++ rest)
      ≡ ok (r + v * 2 ^ (7 * index), rest)
reads_last n index r v rest p h = rw (last_chunk n v p h) (read_last index r v rest h)

reads_more :
    (n index r v : ℕ) (rest : List ℕ) {x : Result (ℕ × List ℕ) SpinelFrameParsingError}
    → index < 2
    → 128 ≤ v
    → deserialize_from
        (index + 1)
        (r + v % 128 * 2 ^ (7 * index))
        (packed_chunks (suc n) (v / 128) ++ rest)
      ≡ x
    → deserialize_from index r (packed_chunks (suc (suc n)) v ++ rest) ≡ x
reads_more n index r v rest i p e =
    rw (more_chunks n v p) (read_more index r v (packed_chunks (suc n) (v / 128) ++ rest) i ∙ e)

reads_chunks :
    (v : ℕ) (rest : List ℕ)
    → 0 < v
    → v < u21_max
    → packed_uint21_deserialize (packed_chunks 5 v ++ rest) ≡ ok (v, rest)
unfolding packed_uint21_deserialize
reads_chunks v rest p h = elim (Bool-cases (ltb v 128)) [
  | inl small ↦ reads_last 4 0 0 v rest p (ground arith) ∙ ap (λ x. ok (x, rest)) (omega arith)
  | inr more ↦ elim (Bool-cases (ltb v 16384)) [
    | inl small ↦ reads_more 3 0 0 v rest (omega arith) (ground arith) (
        reads_last 3 1 (0 + v % 128 * 1) (v / 128) rest (ground arith) (ground arith)
        ∙ ap (λ x. ok (x, rest)) (omega arith))
    | inr most ↦ reads_more 3 0 0 v rest (omega arith) (ground arith) (
        reads_more 2 1 (0 + v % 128 * 1) (v / 128) rest (omega arith) (ground arith) (
          reads_last 2 2 (0 + v % 128 * 1 + v / 128 % 128 * 128) (v / 128 / 128) rest (ground arith)
            (ground arith)
          ∙ ap (λ x. ok (x, rest)) (omega arith)))
  ]
]

-- A number below 2^21 is packed without a panic, and is read back from its bytes, with what
-- follows them left over.
pub unpack-pack :
    (v : ℕ) (rest : List ℕ)
    → v < u21_max
    → (bytes : List ℕ) × (packed_uint21_to_bytes v ≡ some bytes)
      × (packed_uint21_deserialize (bytes ++ rest) ≡ ok (v, rest))
unfolding packed_uint21_to_bytes packed_uint21_deserialize deserialize_from
unpack-pack zero rest h = (0 ∷ [], refl, refl)
unpack-pack (suc v) rest h =
    (packed_chunks 5 (suc v), ground arith, reads_chunks (suc v) rest (omega arith) h)

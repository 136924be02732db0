-- ===== src/Nwk/Security/Replay.antt =====
-- Replay protection: what the incoming frame counters let through.
use ziggurat.Base.{
  Pairwise, ℕ, ◌<◌, ◌≡◌, ◌≢◌, refl, true, false, Option, some, List, [], ◌∷◌, arith, if◌then◌else◌,
  ◌==◌, u32_max, ◌↔◌, Option-cases, inl, inr, Bool-cases, All, All-map, ◌⊎◌,
}
use ziggurat.Types.{Eui64}
use ziggurat.Base.Order.{nat_ord}
use ziggurat.FlatMap
use ziggurat.FlatMap.{FlatMap}
use ziggurat.FlatMap.Laws.{get-insert}
use ziggurat.Nwk.Security.{
  Key, NwkSecurity, SecuredFrame, inbound_network_key, note_inbound_frame_counter, receive,
  receive_all,
}

-- The counter last noted for a sender.
abbrev pub stored_counter : NwkSecurity → Eui64 → Option ℕ
stored_counter s sender = FlatMap.get s.primary.incoming_frame_counter_set sender

-- The counter is above everything noted for the sender.
abbrev pub IsFresh : NwkSecurity → Eui64 → ℕ → Type 0
IsFresh s sender counter = (last : ℕ) → stored_counter s sender ≡ some last → last < counter

-- The check gives a key exactly if the key sequence number is the active one, the counter is not
-- the largest 32-bit value and is above the counter stored for the sender if there is one, and the
-- key is the primary one.
pub inbound_network_key_iff :
    (s : NwkSecurity) (sender : Eui64) (seq counter : ℕ) (key : Key)
    → (inbound_network_key s sender seq counter ≡ some key) ↔ (
        (seq ≡ s.active_key_seq_number)
        × (counter ≢ u32_max)
        × IsFresh s sender counter
        × (key ≡ s.primary.key))
unfolding inbound_network_key
inbound_network_key_iff s sender seq counter key = (
  λ e. (ground arith, ground arith, λ last h. ground arith, ground arith),
  λ h. elim (Option-cases (stored_counter s sender)) [
    | inl e ↦ ground (arith, h.0, h.1, h.3)
    | inr (last, e) ↦ ground (arith, h.0, h.1, h.2 last e, h.3)
  ],
)

stored-note :
    (s : NwkSecurity) (sender other : Eui64) (counter : ℕ)
    → stored_counter (note_inbound_frame_counter s sender counter).0 other
      ≡ (if sender == other then some counter else stored_counter s other)
unfolding note_inbound_frame_counter
stored-note s sender other counter =
    get-insert s.primary.incoming_frame_counter_set sender other counter

-- What stays fresh after a counter is noted was fresh before.
IsFresh-note :
    (s : NwkSecurity) (sender other : Eui64) (counter c : ℕ)
    → IsFresh s sender counter
    → IsFresh (note_inbound_frame_counter s sender counter).0 other c
    → IsFresh s other c
IsFresh-note s sender other counter c before after last e = elim (Bool-cases (sender == other)) [
  | inl same ↦ ground (arith, before last, after counter, stored-note s sender other counter)
  | inr apart ↦ ground (arith, after last, stored-note s sender other counter)
]

-- A received frame is dropped, or is fresh and noted.
receive_cases :
    (s : NwkSecurity) (f : SecuredFrame)
    → (receive s f ≡ (s, false))
      ⊎ ((receive s f ≡ ((note_inbound_frame_counter s f.sender f.frame_counter).0, true))
          × IsFresh s f.sender f.frame_counter)
unfolding receive
receive_cases s f =
    elim (Option-cases (inbound_network_key s f.sender f.key_sequence_number f.frame_counter)) [
      | inl e ↦ inl (rw (e, receive) refl)
      | inr (key, e) ↦
          let fresh =
            (inbound_network_key_iff s f.sender f.key_sequence_number f.frame_counter key).0 e in
          rw (e, receive) (ground (arith, fresh.2))
    ]

-- Every frame accepted later is above what is stored now.
accepted-IsFresh :
    (s : NwkSecurity) (fs : List SecuredFrame)
    → All (λ b. IsFresh s b.sender b.frame_counter) (receive_all s fs).1
unfolding receive_all
accepted-IsFresh s [] = tt
accepted-IsFresh s (f ∷ fs) = elim (receive_cases s f) [
  | inl e ↦ rw (e, receive_all) (accepted-IsFresh s fs)
  | inr (e, fresh) ↦
      let s' = (note_inbound_frame_counter s f.sender f.frame_counter).0 in
      rw (e, receive_all)
        (
          fresh,
          All-map (λ b. IsFresh-note s f.sender b.sender f.frame_counter b.frame_counter fresh)
              (receive_all s' fs).1 (accepted-IsFresh s' fs),
        )
]

-- `a` was accepted before `b`.
abbrev pub Precedes : SecuredFrame → SecuredFrame → Type 0
Precedes a b = a.sender ≡ b.sender → a.frame_counter < b.frame_counter

-- Over any history of received frames, the frame counters of the accepted frames of one sender
-- strictly increase.
pub accepted_increase :
    (s : NwkSecurity) (fs : List SecuredFrame) → Pairwise Precedes (receive_all s fs).1
unfolding receive_all
accepted_increase s [] = tt
accepted_increase s (f ∷ fs) = elim (receive_cases s f) [
  | inl e ↦ rw (e, receive_all) (accepted_increase s fs)
  | inr (e, fresh) ↦
      let s' = (note_inbound_frame_counter s f.sender f.frame_counter).0 in
      rw (e, receive_all)
        (
          All-map (λ b h same. h f.frame_counter (noted b same)) (receive_all s' fs).1
              (accepted-IsFresh s' fs),
          accepted_increase s' fs,
        )
]
  where
    noted :
        (b : SecuredFrame)
        → f.sender ≡ b.sender
        → stored_counter (note_inbound_frame_counter s f.sender f.frame_counter).0 b.sender
          ≡ some f.frame_counter
    noted b same = ground (arith, stored-note s f.sender b.sender f.frame_counter)

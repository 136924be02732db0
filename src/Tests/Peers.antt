-- ===== src/Tests/Peers.antt =====
-- Inputs for the theorems on frame counters, addresses, broadcasts and the ring buffer.
use ziggurat.Base.{
  ℕ, ◌≡◌, ◌≢◌, ◌≤◌, ◌<◌, ◌↔◌, refl, Bool, true, false, some, List, [], ◌∷◌, arith, All, Pairwise,
  u32_max, ◌+◌,
}
use ziggurat.Base.Order.{nat_ord, pair_ord}
use ziggurat.Nwk.Security
use ziggurat.Nwk.Security.{
  NwkSecurity, CounterAdvance, SecuredFrame, Key, next_outgoing_frame_counter, advance_all,
  receive_all, inbound_network_key,
}
use ziggurat.Nwk.Security.Replay.{accepted_increase, Precedes, IsFresh, inbound_network_key_iff}
use ziggurat.Nwk.Security.Outgoing.{persisted, advance_all-increase, persisted_lag}

abbrev key : Key
key = 7 ∷ []

abbrev near_end : NwkSecurity
near_end = Security.new key 3 4294967290 4

abbrev frame : ℕ → SecuredFrame
frame counter = record {
  sender = 9;
  key_sequence_number = 3;
  frame_counter = counter;
  decrypts = true;
  short_source = true;
}

-- A replayed frame, and a counter that went backward.
accepted_increase_example :
    Pairwise Precedes (receive_all near_end (frame 5 ∷ frame 5 ∷ frame 4 ∷ frame 8 ∷ [])).1
accepted_increase_example = accepted_increase near_end (frame 5 ∷ frame 5 ∷ frame 4 ∷ frame 8 ∷ [])

inbound_network_key_iff_example : (inbound_network_key near_end 9 3 5 ≡ some key) ↔ (
    (3 ≡ near_end.active_key_seq_number)
    × (5 ≢ u32_max)
    × IsFresh near_end 9 5
    × (key ≡ near_end.primary.key))
inbound_network_key_iff_example = inbound_network_key_iff near_end 9 3 5 key

abbrev advance : ℕ → Bool → CounterAdvance
advance value should_persist = record { value = value; should_persist = should_persist }

abbrev advances : List CounterAdvance
advances = advance 4294967291 false ∷ advance 4294967292 true ∷ advance 4294967293 false ∷ []

abbrev advanced : NwkSecurity
advanced = record near_end {
  primary = record (near_end.primary) { outgoing_frame_counter = 4294967293 };
}

runs : advance_all 3 near_end ≡ some (advanced, advances)
unfolding advance_all next_outgoing_frame_counter Security.new
runs = refl

advance_all-increase_example :
    All (λ a. (4294967290 < a.value) × (a.value ≤ u32_max)) advances
    × Pairwise (λ a b. a.value < b.value) advances
    × (4294967293 ≡ 4294967290 + 3)
unfolding Security.new
advance_all-increase_example = advance_all-increase 3 near_end runs

persisted_lag_example :
    (persisted 4294967290 advances ≤ 4294967293) × (4294967293 < persisted 4294967290 advances + 4)
unfolding Security.new
persisted_lag_example = persisted_lag 3 near_end (omega arith) runs

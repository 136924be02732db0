-- ===== src/Nwk/Security.antt =====
-- crates/ziggurat-zigbee/src/nwk/security.rs: the network key, its outgoing frame counter and the
-- incoming frame counters, with the path of crates/ziggurat-driver/src/zigbee_stack/mac.rs that
-- consults them, and of nwk.rs beside it, which notes the counter.
pub mod Outgoing
pub mod Replay
use ziggurat.Base.{
  ℕ, zero, suc, ◌+◌, ◌*◌, ◌%◌, Bool, true, false, Option, none, some, List, [], ◌∷◌, if◌then◌else◌,
  ◌==◌, ltb, leb, u32_max,
}
use ziggurat.Base.{not}
use ziggurat.Types.{Nwk, Eui64}
use ziggurat.Base.Order.{nat_ord}
use mathlib.Core.Option
use ziggurat.FlatMap
use ziggurat.FlatMap.{FlatMap}

-- The sixteen bytes of a key.
abbrev pub Key : Type 0
Key = List ℕ

pub record NwkSecurityDescriptor : Type 0 where
  pub key_seq_number : ℕ
  pub outgoing_frame_counter : ℕ
  pub incoming_frame_counter_set : FlatMap Eui64 ℕ
  pub key : Key

pub record NwkSecurity : Type 0 where
  pub primary : NwkSecurityDescriptor
  pub alternate : NwkSecurityDescriptor
  pub active_key_seq_number : ℕ
  pub all_fresh : Bool
  pub persist_interval : ℕ

pub record CounterAdvance : Type 0 where
  pub value : ℕ
  pub should_persist : Bool

abbrev zero_key : Key
zero_key = 0 ∷ 0 ∷ 0 ∷ 0 ∷ 0 ∷ 0 ∷ 0 ∷ 0 ∷ 0 ∷ 0 ∷ 0 ∷ 0 ∷ 0 ∷ 0 ∷ 0 ∷ 0 ∷ []

unfoldable pub new : Key → ℕ → ℕ → ℕ → NwkSecurity
new key seq counter interval = record {
  primary = record {
    key_seq_number = seq;
    outgoing_frame_counter = counter;
    incoming_frame_counter_set = FlatMap.new;
    key = key;
  };
  alternate = record {
    key_seq_number = 0;
    outgoing_frame_counter = 0;
    incoming_frame_counter_set = FlatMap.new;
    key = zero_key;
  };
  active_key_seq_number = seq;
  all_fresh = false;
  persist_interval = interval;
}

-- `u32::is_multiple_of`: of zero, only zero is a multiple.
is_multiple_of : ℕ → ℕ → Bool
is_multiple_of a b = if b == 0 then a == 0 else a % b == 0

-- `none`: `checked_add(1).unwrap()` panics.
unfoldable pub next_outgoing_frame_counter : NwkSecurity → Option (NwkSecurity × CounterAdvance)
unfolding is_multiple_of
next_outgoing_frame_counter s =
    let value = s.primary.outgoing_frame_counter + 1 in
    if leb value u32_max
    then some (
      record s { primary = record (s.primary) { outgoing_frame_counter = value } },
      record { value = value; should_persist = is_multiple_of value s.persist_interval },
    )
    else none

-- `None` rejects the frame.
unfoldable pub inbound_network_key : NwkSecurity → Eui64 → ℕ → ℕ → Option Key
inbound_network_key s sender key_sequence_number frame_counter =
    if not (key_sequence_number == s.active_key_seq_number)
    then none
    else (if frame_counter == u32_max
        then none
        else elim (FlatMap.get s.primary.incoming_frame_counter_set sender) [
          | none ↦ some s.primary.key
          | some last ↦ if leb frame_counter last then none else some s.primary.key
        ])

-- Also the counter that was stored before.
unfoldable pub note_inbound_frame_counter : NwkSecurity → Eui64 → ℕ → NwkSecurity × Option ℕ
note_inbound_frame_counter s sender frame_counter =
    let (counters, old) =
      FlatMap.insert s.primary.incoming_frame_counter_set sender frame_counter in
    (record s { primary = record (s.primary) { incoming_frame_counter_set = counters } }, old)

-- What `process_802154_data_frame` reads of a secured frame past the checks of its security level and
-- key id: its auxiliary header with the extended source, whether the ciphertext opens under the key
-- (CCM* is a parameter of the run), and whether the MAC source is a short address.
pub record SecuredFrame : Type 0 where
  pub sender : Eui64
  pub key_sequence_number : ℕ
  pub frame_counter : ℕ
  pub decrypts : Bool
  pub short_source : Bool

-- `handle_decrypted_frame` notes the counter first; so does `relay_unicast_nwk_frame`.
abbrev pub handle_decrypted_frame : NwkSecurity → SecuredFrame → NwkSecurity
handle_decrypted_frame s f = (note_inbound_frame_counter s f.sender f.frame_counter).0

-- One received frame: check, decrypt, then note the counter. The Boolean tells of acceptance.
unfoldable pub receive : NwkSecurity → SecuredFrame → NwkSecurity × Bool
receive s f = elim (inbound_network_key s f.sender f.key_sequence_number f.frame_counter) [
  | none ↦ (s, false)
  | some key ↦
      if f.decrypts
      then (if f.short_source then (handle_decrypted_frame s f, true) else (s, false))
      else (s, false)
]

-- A history of received frames, and those accepted, in order.
unfoldable pub receive_all : NwkSecurity → List SecuredFrame → NwkSecurity × List SecuredFrame
receive_all s [] = (s, [])
receive_all s (f ∷ fs) =
    let (s', accepted) = receive s f in
    let (t, rest) = receive_all s' fs in (t, if accepted then f ∷ rest else rest)

-- A number of advances in a row; `none` where one of them panics.
unfoldable pub advance_all : ℕ → NwkSecurity → Option (NwkSecurity × List CounterAdvance)
advance_all zero s = some (s, [])
advance_all (suc k) s = elim (next_outgoing_frame_counter s) [
  | none ↦ none
  | some (s', a) ↦ Option.map (λ r. (r.0, a ∷ r.1)) (advance_all k s')
]

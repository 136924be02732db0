-- ===== src/Tests/Requests.antt =====
-- Inputs for the theorems on Spinel frames and requests, under a checksum that is always zero.
use ziggurat.Base.{ℕ, ◌≤◌, ◌≡◌, ◌↔◌, refl, true, none, some, List, [], ◌∷◌, ◌++◌, ◌+◌, arith}
use ziggurat.Spinel.Stream.{SpinelProtocol}
use ziggurat.Spinel.Stream.Delivery.{wire, synced}
use ziggurat.Spinel.Frames.{SpinelFrame, frame_to_bytes}
use ziggurat.Spinel.Frames.RoundTrip.{Sendable}
use ziggurat.Spinel.Inbound.{parse_frames_from_bytes}
use ziggurat.Spinel.Inbound.Chunks.{parse-append, parse-wire}
use ziggurat.Spinel.Requests.{
  Requests, Delivery, new, request_header, prepare_request, handle_inbound_frame, cancel_request,
  free_tid,
}
use ziggurat.Spinel.Requests.Calls.{Event, step, finished, IsValid}
use ziggurat.Spinel.Requests.Answers.{admitted_all, History, History-IsValid, answered_once}
use ziggurat.Spinel.Requests.Matching.{Quiet, prepare_request_panics}
use ziggurat.Spinel.Bytes.{handle_inbound_bytes}
use ziggurat.Spinel.Bytes.Answered.{request_answered}
use ziggurat.Base.Order.{nat_ord}
use ziggurat.FlatMap
use ziggurat.FlatMap.{FlatMap, contains_key}
use ziggurat.FlatMap.Totals.{total}

abbrev zero_crc : List ℕ → ℕ
zero_crc bytes = 0

abbrev value_frame : ℕ → SpinelFrame
value_frame tid = record { header = request_header tid; command_id = 6; payload = 9 ∷ 7 ∷ [] }

value_frame-Sendable : Sendable (value_frame 1)
value_frame-Sendable = record {
  fits = record { flag = omega arith; network_link_id = omega arith; transaction_id = omega arith };
  spinel = refl;
  known = refl;
  some_payload = omega arith;
}

abbrev unsynced : SpinelProtocol
unsynced = record { buffer = []; ignoring_until_next_flag = true }

parse-wire_example :
    parse_frames_from_bytes zero_crc unsynced (
      (4 ∷ [])
      ++ wire zero_crc (frame_to_bytes (value_frame 1) ∷ frame_to_bytes (value_frame 1) ∷ []))
    ≡ some (synced [], value_frame 1 ∷ value_frame 1 ∷ [])
parse-wire_example =
    parse-wire zero_crc (4 ∷ []) (value_frame 1) (value_frame 1 ∷ []) (refl, tt)
      value_frame-Sendable (value_frame-Sendable, tt)

-- The cut lies within a frame.
parse-append_example :
    (q r : SpinelProtocol) × (frames others : List SpinelFrame) × (parse_frames_from_bytes zero_crc
        unsynced
        (126 ∷ 129 ∷ 6 ∷ [])
      ≡ some (q, frames))
    × (parse_frames_from_bytes zero_crc q (9 ∷ 255 ∷ 255 ∷ 126 ∷ []) ≡ some (r, others))
    × (parse_frames_from_bytes zero_crc unsynced
          ((126 ∷ 129 ∷ 6 ∷ []) ++ (9 ∷ 255 ∷ 255 ∷ 126 ∷ []))
        ≡ some (r, frames ++ others))
parse-append_example =
    parse-append zero_crc unsynced (126 ∷ 129 ∷ 6 ∷ []) (9 ∷ 255 ∷ 255 ∷ 126 ∷ []) (omega arith)

abbrev idle : Requests ℕ ℕ
idle = new

abbrev asked : Requests ℕ ℕ
asked = record idle { next_tid = 2; pending_frames = record { entries = (1, 5) ∷ [] } }

idle-IsValid : IsValid idle
idle-IsValid = History-IsValid History.begin

one_cancelled : Quiet 1 asked asked
unfolding step cancel_request FlatMap.remove FlatMap.new FlatMap.index_of FlatMap.search
    FlatMap.shift
one_cancelled = Quiet.then_call Quiet.stay (Event.cancel 2) refl refl

asked_now :
    prepare_request idle 2 (1 ∷ []) 5
    ≡ some (record { header = request_header 1; command_id = 2; payload = 1 ∷ [] }, asked)
unfolding prepare_request free_tid FlatMap.contains_key FlatMap.insert FlatMap.new FlatMap.index_of
    FlatMap.search
asked_now = refl

request_answered_example :
    handle_inbound_bytes zero_crc unsynced asked
      ((4 ∷ []) ++ wire zero_crc (frame_to_bytes (value_frame 1) ∷ []))
    ≡ some (
      synced [],
      ((handle_inbound_frame asked (value_frame 1)).0, Delivery.response 5 (value_frame 1) ∷ []),
    )
request_answered_example =
    request_answered zero_crc idle 2 (1 ∷ []) 5 (4 ∷ []) (value_frame 1) idle-IsValid asked_now
      one_cancelled (refl, tt) value_frame-Sendable refl

-- A request, and then its cancellation.
abbrev one_request : Event ℕ
one_request = Event.prepare 2 (1 ∷ []) 5

first_call : step idle one_request ≡ some (asked, [])
unfolding step prepare_request free_tid FlatMap.contains_key FlatMap.insert FlatMap.new
    FlatMap.index_of FlatMap.search
first_call = refl

second_call :
    step asked (Event.cancel 1) ≡ some (record idle { next_tid = 2 }, Delivery.dropped 5 ∷ [])
unfolding step cancel_request FlatMap.remove FlatMap.new FlatMap.index_of FlatMap.search
second_call = refl

requested : History asked (one_request ∷ []) []
requested = History.next History.begin one_request first_call

cancelled :
    History
      (record idle { next_tid = 2 })
      (Event.cancel 1 ∷ one_request ∷ [])
      (Delivery.dropped 5 ∷ [])
cancelled = History.next requested (Event.cancel 1) second_call

answered_once_example :
    admitted_all (λ w. w) (Event.cancel 1 ∷ one_request ∷ [])
    ≡ total (λ w. w) (record idle { next_tid = 2 }).pending_frames
      + finished {R = ℕ} (λ w. w) (Delivery.dropped 5 ∷ [])
answered_once_example = answered_once cancelled (λ w. w)

prepare_request_panics_example :
    (prepare_request asked 3 [] 6 ≡ none)
    ↔ ((tid : ℕ) → 1 ≤ tid → tid ≤ 7 → contains_key asked.pending_frames tid ≡ true)
prepare_request_panics_example = prepare_request_panics asked 3 [] 6 (History-IsValid requested)

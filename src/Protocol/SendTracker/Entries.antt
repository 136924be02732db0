-- ===== src/Protocol/SendTracker/Entries.antt =====
-- A sweep over the entries, seen from one request identifier.
use ziggurat.Base.{
  ℕ, ◌≡◌, ◌<◌, refl, sym, ◌∙◌, ap, ap₂, Bool, true, false, Option, none, some, List, [], ◌∷◌, ◌++◌,
  if◌then◌else◌, ◌==◌, filterb, any, All, ok, err, arith,
}
use ziggurat.Base.Order.{nat_ord}
use ziggurat.FlatMap.Sorted.{Above, lookup}
use ziggurat.Protocol.SendTracker.{
  TrackedSend, ConfirmKind, SendProgress, Notification, Swept, Verdict, SendStatus, sweep_delivered,
  sweep_handed_off, sweep_entry, sweep_entries,
}
use mathlib.Core.Option
use mathlib.Core.List.{append-nil}

abbrev pub is_for : ℕ → Notification → Bool
is_for id (Notification.send_confirm k s) = k == id
is_for id (Notification.aps_ack_confirm k s) = k == id
is_for id (Notification.broadcast_confirm k s) = k == id

pub filterb-append :
    (p : Notification → Bool) (xs ys : List Notification)
    → filterb p (xs ++ ys) ≡ filterb p xs ++ filterb p ys
filterb-append p [] ys = refl
filterb-append p (x ∷ xs) ys = ground (arith, filterb-append p xs ys)

-- The frames of an entry carry its identifier.
abbrev Carries : ℕ → List Notification → Type 0
Carries k fs = All (λ f. is_for k f ≡ true) fs

self_eq : (k : ℕ) → k == k ≡ true
self_eq k = ground arith

sweep_delivered-Carries :
    (k : ℕ) (frame : SendStatus → Notification) (o : Option Verdict) (e : TrackedSend)
    → ((s : SendStatus) → is_for k (frame s) ≡ true)
    → Carries k (sweep_delivered frame o e).frames
sweep_delivered-Carries k frame none e h = tt
sweep_delivered-Carries k frame (some v) e h = (h _, tt)

sweep_handed_off-Carries :
    (k : ℕ) (p : SendProgress) (o : Option Verdict) (e : TrackedSend)
    → Carries k (sweep_handed_off k p o e).frames
sweep_handed_off-Carries k p none e = tt
sweep_handed_off-Carries k p (some (err x)) e = (self_eq k, tt)
sweep_handed_off-Carries k p (some (ok u)) e = (
  self_eq k,
  sweep_delivered-Carries k (Notification.aps_ack_confirm k) p.delivered _ (λ s. self_eq k),
)

sweep_entry-Carries :
    (k : ℕ) (p : SendProgress) (e : TrackedSend) → Carries k (sweep_entry k p e).frames
unfolding sweep_entry
sweep_entry-Carries k p e = by_kind e.confirm_kind
  where
    by_kind :
        (kind : ConfirmKind)
        → Carries k
            (elim kind as (λ _. Swept) [
              | ConfirmKind.unicast_no_ack ↦
                  sweep_delivered (Notification.send_confirm k) p.delivered e
              | ConfirmKind.broadcast ↦
                  sweep_delivered (Notification.broadcast_confirm k) p.delivered e
              | ConfirmKind.unicast_aps_ack ↦
                  if e.emitted_send_confirm
                  then sweep_delivered (Notification.aps_ack_confirm k) p.delivered e
                  else sweep_handed_off k p p.handed_off e
            ]).frames
    by_kind ConfirmKind.unicast_no_ack =
        sweep_delivered-Carries k (Notification.send_confirm k) p.delivered e (λ s. self_eq k)
    by_kind ConfirmKind.broadcast =
        sweep_delivered-Carries k (Notification.broadcast_confirm k) p.delivered e (λ s. self_eq k)
    by_kind ConfirmKind.unicast_aps_ack = by_flag e.emitted_send_confirm
      where
        by_flag :
            (b : Bool)
            → Carries k
                (if b
                  then sweep_delivered (Notification.aps_ack_confirm k) p.delivered e
                  else sweep_handed_off k p p.handed_off e).frames
        by_flag true =
            sweep_delivered-Carries k (Notification.aps_ack_confirm k) p.delivered e
              (λ s. self_eq k)
        by_flag false = sweep_handed_off-Carries k p p.handed_off e

for_same : (k id : ℕ) (f : Notification) → is_for k f ≡ true → is_for id f ≡ (k == id)
for_same k id (Notification.send_confirm j s) h = ground (arith, h)
for_same k id (Notification.aps_ack_confirm j s) h = ground (arith, h)
for_same k id (Notification.broadcast_confirm j s) h = ground (arith, h)

filterb-Carries :
    (k id : ℕ) (fs : List Notification)
    → Carries k fs
    → filterb (is_for id) fs ≡ (if k == id then fs else [])
filterb-Carries k id [] c = ground arith
filterb-Carries k id (f ∷ fs) c = ground (arith, for_same k id f c.0, filterb-Carries k id fs c.1)

-- What a sweep leaves of, and emits for, the entry under an identifier.
abbrev pub frames_of : (ℕ → SendProgress) → ℕ → Option TrackedSend → List Notification
frames_of status id none = []
frames_of status id (some e) = (sweep_entry id (status e.handle) e).frames

abbrev pub is_done : (ℕ → SendProgress) → ℕ → Option TrackedSend → Bool
is_done status id none = false
is_done status id (some e) = (sweep_entry id (status e.handle) e).done

abbrev swept : (ℕ → SendProgress) → ℕ → TrackedSend → TrackedSend
swept status id e = (sweep_entry id (status e.handle) e).entry

pub record Seen (status : ℕ → SendProgress) (es : List (ℕ × TrackedSend)) (id : ℕ) : Type 0 where
  pub out : filterb (is_for id) (sweep_entries status es).out ≡ frames_of status id (lookup es id)
  pub done : any (λ x. x == id) (sweep_entries status es).done ≡ is_done status id (lookup es id)
  pub entry :
      lookup (sweep_entries status es).entries id ≡ Option.map (swept status id) (lookup es id)

pub lookup-Above :
    (es : List (ℕ × TrackedSend)) (k id : ℕ) → id < k → Above k es → lookup es id ≡ none
unfolding lookup
lookup-Above [] k id h a = refl
lookup-Above ((j, e) ∷ es) k id h a = ground (arith, a)

lookup_rest : (es : List (ℕ × TrackedSend)) (k : ℕ) → Above k es → lookup es k ≡ none
unfolding lookup
lookup_rest [] k a = refl
lookup_rest ((j, e) ∷ es) k a = ground (arith, a)

module _ (status : ℕ → SendProgress) (k : ℕ) (e : TrackedSend) (es : List (ℕ × TrackedSend)) where
  -- The entry itself: the entries behind it are for others.
  pub Seen-here : Seen status es k → Above k es → Seen status ((k, e) ∷ es) k
  unfolding sweep_entries lookup
  Seen-here ih above =
      let one = sweep_entry k (status e.handle) e in
      let rest = sweep_entries status es in
      let beyond : lookup es k ≡ none = lookup_rest es k above in
      let found : lookup ((k, e) ∷ es) k ≡ some e = ground arith in
      let mine : filterb (is_for k) one.frames ≡ one.frames =
        filterb-Carries k k one.frames (sweep_entry-Carries k (status e.handle) e)
        ∙ rw (self_eq k) refl in
      let others : filterb (is_for k) rest.out ≡ [] = ih.out ∙ ap (frames_of status k) beyond in
      let undone : any (λ x. x == k) rest.done ≡ false = ih.done ∙ ap (is_done status k) beyond in
      record {
        out =
            filterb-append (is_for k) one.frames rest.out
            ∙ ap₂ ◌++◌ mine others
            ∙ append-nil one.frames
            ∙ sym (ap (frames_of status k) found);
        done = ground (arith, undone, self_eq k);
        entry = ground (arith, self_eq k);
      }

  -- Another entry: it adds nothing.
  pub Seen-other :
      (id : ℕ)
      → Seen status es id
      → k == id ≡ false
      → (o : Option TrackedSend) → lookup ((k, e) ∷ es) id ≡ o
      → lookup es id ≡ o
      → Seen status ((k, e) ∷ es) id
  unfolding sweep_entries lookup
  Seen-other id ih apart o found before =
      let one = sweep_entry k (status e.handle) e in
      let rest = sweep_entries status es in
      let mine : filterb (is_for id) one.frames ≡ [] =
        filterb-Carries k id one.frames (sweep_entry-Carries k (status e.handle) e)
        ∙ rw apart refl in
      let skip : any (λ x. x == id) (if one.done then k ∷ rest.done else rest.done)
          ≡ any (λ x. x == id) rest.done =
        ground (arith, apart) in
      record {
        out =
            filterb-append (is_for id) one.frames rest.out
            ∙ ap₂ ◌++◌ mine (ih.out ∙ ap (frames_of status id) before)
            ∙ sym (ap (frames_of status id) found);
        done = skip ∙ ih.done ∙ ap (is_done status id) before ∙ sym (ap (is_done status id) found);
        entry = ground (arith, apart, ih.entry);
      }

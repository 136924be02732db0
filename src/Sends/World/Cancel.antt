-- ===== src/Sends/World/Cancel.antt =====
-- `cancel`: a send leaves its table, and a broadcast takes its copies to sleepy children along.
use mathlib.Core.Option
use mathlib.Core.Option.{some-injective, some-ne-none}
use ziggurat.Base.{
  ℕ, ◌≡◌, refl, sym, subst, true, false, Option, none, some, List, [], ◌∷◌, ◌++◌, if◌then◌else◌,
  arith, ◌⊎◌, inl, inr, Option-cases, Bool-cases, All, err,
}
use ziggurat.Base.Order.{nat_ord}
use ziggurat.FlatMap
use ziggurat.FlatMap.{FlatMap, get}
use ziggurat.FlatMap.Sorted.{contains_key-eq}
use ziggurat.FlatMap.Entries.{get-All}
use ziggurat.FlatMap.Drain.{collect, collect_same, drain}
use ziggurat.Sends.{SendFailure, Action}
use ziggurat.Sends.Ledger.{Keeps}
use ziggurat.Sends.Sweep.{settle_all-Runs}
use ziggurat.Sends.Front.{with_unicasts, with_broadcasts, with_unrouted}
use ziggurat.Sends.Settling.{any_lent, cancel_copy, cancel_broadcast, cancel}
use ziggurat.Sends.Unicasts
use ziggurat.Sends.Unicasts.{Unicasts, copies}
use ziggurat.Sends.Unicasts.Books as U
use ziggurat.Sends.Unicasts.Steps as US
use ziggurat.Sends.Broadcasts
use ziggurat.Sends.Broadcasts.{Broadcasts}
use ziggurat.Sends.Broadcasts.Books as B
use ziggurat.Sends.Unrouted
use ziggurat.Sends.Unrouted.{UnroutedUnicasts}
use ziggurat.Sends.Unrouted.Books as R
use ziggurat.Sends.World.{World, cancelling}
use ziggurat.Sends.World.Valid.{
  IsValid, Good-trans, nothing, unicasts-Good, broadcasts-Good, same-Good,
}
use ziggurat.Sends.World.Calls.{Well, unrouted-Good}

module _ {F W : Type 0} where
  -- The copies that are not on loan.
  abbrev free_copies : ℕ → ℕ → Unicasts.Record F W → Option (Unit {0})
  free_copies broadcast id r = if Unicasts.is_lent r.stage then none else copies broadcast id r

  -- The scan of the copies finds each of them; if it finds none on loan, none is.
  scan_copies :
      (broadcast : ℕ) (m : Unicasts F W) (es : List (ℕ × Unicasts.Record F W))
      → All (λ e. get m e.0 ≡ some e.1) es
      → (any_lent m (collect (copies broadcast) es) ≡ some true)
        ⊎ ((any_lent m (collect (copies broadcast) es) ≡ some false)
            × All (λ e. copies broadcast e.0 e.1 ≡ free_copies broadcast e.0 e.1) es)
  unfolding any_lent collect Unicasts.is_transmitting
  scan_copies broadcast m [] a = inr (refl, tt)
  scan_copies broadcast m ((k, r) ∷ es) a = elim (Option-cases (copies broadcast k r)) [
    | inl other ↦ elim (scan_copies broadcast m es a.1) [
      | inl found ↦ inl (rw (other, collect) found)
      | inr (clear, rest) ↦ inr (rw (other, collect) clear, (ground (arith, other), rest))
    ]
    | inr (u, copy) ↦ elim (Bool-cases (Unicasts.is_lent r.stage)) [
      | inl l ↦ inl (rw (copy, collect, any_lent, a.0, l) refl)
      | inr n ↦ elim (scan_copies broadcast m es a.1) [
        | inl found ↦ inl (rw (copy, collect, any_lent, a.0, n) found)
        | inr (clear, rest) ↦ inr (rw (copy, collect, any_lent, a.0, n) clear, (rw n refl, rest))
      ]
    ]
  ]

module _ {F W E : Type 0} (from : SendFailure → E) where
  copies-Ends :
      (broadcast : ℕ) (m : Unicasts F W)
      → U.IsValid m
      → All (λ e. copies broadcast e.0 e.1 ≡ free_copies broadcast e.0 e.1) m.entries
      → U.Ends m (drain (cancel_copy from) (Unicasts.copies_of m broadcast) m) (U.loans m)
  unfolding Unicasts.copies_of
  copies-Ends broadcast m v free =
      rw (collect_same (copies broadcast) (free_copies broadcast) m.entries free) (
        settle_all-Runs U.waiter_of U.on_loan U.Ok (free_copies broadcast) (cancel_copy from)
          (λ id r u. US.failing from (λ s. s) r SendFailure.cancelled)
          (λ id r u p e.
            let n : Unicasts.is_lent r.stage ≡ false = ground arith in
            let both = US.failing-settles from (λ s. s) id r SendFailure.cancelled p n refl in
            (rw n (both.0), n, both.1))
          m v)

module _ {F W E : Type 0} (from : SendFailure → E) (w : World F W E) (v : IsValid w) where
  cancel_unicast :
      (id : ℕ) (r : Unicasts.Record F W)
      → get w.sends.unicasts id ≡ some r
      → Well w v
          (cancelling w (
            Option.map
              (Option.map (λ x. (with_unicasts w.sends x.0, x.1)))
              (Unicasts.cancel from w.sends.unicasts id)))
          nothing
  unfolding Unicasts.cancel
  cancel_unicast id r g = elim (Bool-cases (Unicasts.is_lent r.stage)) [
    | inl l ↦ rw (g, Unicasts.cancel, l) (w, [], refl, same-Good w v)
    | inr n ↦
        let (m, acts, run, keeps) = US.cancel_cases from w.sends.unicasts v.unicasts id r g n in
        (
          record w { sends = with_unicasts w.sends m },
          acts,
          rw (g, Unicasts.cancel, n, run) refl,
          unicasts-Good w m w.lent acts v keeps v.lent_unicasts (λ k. refl),
        )
  ]

  cancel_unrouted :
      (id : ℕ) (r : Unrouted.Record F W)
      → get w.sends.unrouted_unicasts.records id ≡ some r
      → Well w v
          (cancelling w (
            Option.map
              (λ x. some (with_unrouted w.sends x.0, x.1))
              (Unrouted.cancel from w.sends.unrouted_unicasts id)))
          nothing
  cancel_unrouted id r g =
      let (run, keeps) = R.cancel-Keeps from w.sends.unrouted_unicasts id r v.unrouted g in
      let u = w.sends.unrouted_unicasts in
      let left : UnroutedUnicasts F W = record u { records = (FlatMap.remove u.records id).0 } in
      let acts : List (Action F W E) = Unrouted.settled_with from r SendFailure.cancelled ∷ [] in
      (
        record w { sends = with_unrouted w.sends left },
        acts,
        rw run refl,
        unrouted-Good w v left acts keeps,
      )

  -- The copies leave after the broadcast.
  with_copies :
      (id : ℕ) (m : Broadcasts F W E) (a : List (Action F W E))
      → B.Ends w.sends.broadcasts (some (m, a)) (B.loans w.sends.broadcasts)
      → All (λ e. copies id e.0 e.1 ≡ free_copies id e.0 e.1) w.sends.unicasts.entries
      → Well w v
          (cancelling w (
            Option.map
              (λ x. some (record (w.sends) { unicasts = x.0; broadcasts = m }, a ++ x.1))
              (drain (cancel_copy from) (Unicasts.copies_of w.sends.unicasts id) w.sends.unicasts)))
          nothing
  with_copies id m a (m', a', same, keeps) free =
      let two = some-injective _ _ same in
      let keeps' =
        subst
          (λ x.
            Keeps B.waiter_of B.on_loan B.Ok F E w.sends.broadcasts x.0 x.1
              (B.loans w.sends.broadcasts))
          (sym two) keeps in
      let first = broadcasts-Good w m w.lent a v keeps' v.lent_broadcasts (λ k. refl) in
      let x : World F W E = record w { sends = with_broadcasts w.sends m } in
      let (n, b, run, books) = copies-Ends from id w.sends.unicasts v.unicasts free in
      (
        record w { sends = record (w.sends) { unicasts = n; broadcasts = m } },
        a ++ b,
        rw run refl,
        Good-trans first (unicasts-Good x n w.lent b first.valid books v.lent_unicasts (λ k. refl)),
      )

  cancel_broadcast-Well :
      (id : ℕ) → Well w v (cancelling w (cancel_broadcast from w.sends id)) nothing
  unfolding cancel_broadcast Unicasts.copies_of Broadcasts.cancel
  cancel_broadcast-Well id =
      elim (scan_copies id w.sends.unicasts w.sends.unicasts.entries
        (get-All _ w.sends.unicasts v.unicasts.sorted (λ k r g. g))) [
          | inl found ↦ rw (found, cancel_broadcast) (w, [], refl, same-Good w v)
          | inr (clear, free) ↦ elim (Option-cases (get w.sends.broadcasts id)) [
            | inl g ↦ rw (clear, cancel_broadcast, g) (w, [], refl, same-Good w v)
            | inr (r, g) ↦ elim (Bool-cases (Broadcasts.is_lent r.copy)) [
              | inl l ↦ rw (clear, cancel_broadcast, g, l) (w, [], refl, same-Good w v)
              | inr n ↦
                  let (m, a, run, keeps) =
                    B.settle-Ends w.sends.broadcasts id r (err (from SendFailure.cancelled))
                      v.broadcasts g n in
                  rw (clear, cancel_broadcast, g, n, run)
                    (with_copies id m a (m, a, refl, keeps) free)
            ]
          ]
        ]

  -- Cancelling any id ends well.
  pub cancel-Well : (id : ℕ) → Well w v (cancelling w (cancel from w.sends id)) nothing
  unfolding cancel
  cancel-Well id = elim (Option-cases (get w.sends.unicasts id)) [
    | inr (r, g) ↦ rw (contains_key-eq w.sends.unicasts id, g, cancel) (cancel_unicast id r g)
    | inl gone ↦ elim (Option-cases (get w.sends.unrouted_unicasts.records id)) [
      | inr (r, g) ↦
          rw
            (
              contains_key-eq w.sends.unicasts id,
              contains_key-eq w.sends.unrouted_unicasts.records id,
              gone,
              g,
              cancel,
            )
            (cancel_unrouted id r g)
      | inl none_held ↦
          rw
            (
              contains_key-eq w.sends.unicasts id,
              contains_key-eq w.sends.unrouted_unicasts.records id,
              gone,
              none_held,
              cancel,
            )
            (cancel_broadcast-Well id)
    ]
  ]

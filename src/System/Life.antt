-- ===== src/System/Life.antt =====
-- How long the life of a delivery can be, and that it ends once.
use webhook_recovery.Prelude.{
  ap, if◌then◌else◌, Bool-cases, inl, inr, ℕ, ◌+◌, ◌-◌, ◌*◌, ◌≤◌, ◌<◌, ◌≡◌, refl, sym, ◌∙◌, Bool,
  true, false, arith, ◌||◌,
}
use webhook_recovery.Core.Enums.{
  DeliveryState, pending, ready, in_flight, expired, superseded, is_pending, is_ready, is_in_flight,
  is_terminal,
}
use webhook_recovery.Core.Settings.{Settings}
use webhook_recovery.Core.Models.{Delivery}
use webhook_recovery.Conductor.Policy.Dropped.{is_drop}
use webhook_recovery.System.Rows.{
  Edge, admits, drops, requeues, exhausts, leases, expires, delivers, fails, retries, Course, stays,
  moves,
}

-- A queued delivery has an attempt left, and no delivery has had more than its attempts.
abbrev pub is_queued : DeliveryState → Bool
is_queued s = is_pending s || is_ready s

pub record IsWithin (settings : Settings) (d : Delivery) : Type 0 where
  pub queued : is_queued d.state ≡ true → d.attempt_count < settings.max_attempts
  pub counted : d.attempt_count ≤ settings.max_attempts

-- The moves that are left to a delivery: three for each attempt, and those of its state.
abbrev pub rank : DeliveryState → ℕ
rank pending = 2
rank ready = 1
rank in_flight = 3
rank _ = 0

abbrev pub moves_left : Settings → Delivery → ℕ
moves_left settings d =
    if is_terminal d.state then 0 else 3 * (settings.max_attempts - d.attempt_count) + rank d.state

abbrev pub path_length : {settings : Settings} {d e : Delivery} → Course settings d e → ℕ
path_length stays = 0
path_length (moves p e) = path_length p + 1

pending_lem : (s : DeliveryState) → is_pending s ≡ true → s ≡ pending
pending_lem pending h = refl
pending_lem _ h = cc

ready_lem : (s : DeliveryState) → is_ready s ≡ true → s ≡ ready
ready_lem ready h = refl
ready_lem _ h = cc

in_flight_lem : (s : DeliveryState) → is_in_flight s ≡ true → s ≡ in_flight
in_flight_lem in_flight h = refl
in_flight_lem _ h = cc

drop_lem : (s : DeliveryState) → is_drop s ≡ true → (is_queued s ≡ false) × (is_terminal s ≡ true)
drop_lem expired h = (refl, refl)
drop_lem superseded h = (refl, refl)
drop_lem _ h = cc

terminal_lem :
    (s : DeliveryState)
    → is_terminal s ≡ true
    → (is_pending s ≡ false) × (is_ready s ≡ false) × (is_in_flight s ≡ false)
terminal_lem pending h = cc
terminal_lem ready h = cc
terminal_lem in_flight h = cc
terminal_lem _ h = (refl, refl, refl)

module _ (settings : Settings) (d d' : Delivery) where
  pub Edge-IsWithin : Edge settings d d' → IsWithin settings d → IsWithin settings d'
  Edge-IsWithin (admits now p e) w =
      rw e (record { queued = λ h. w.queued (rw p refl); counted = w.counted })
  Edge-IsWithin (drops now drop p k e) w =
      let (q, t) = drop_lem drop.state k in rw e (record { queued = λ h. cc; counted = w.counted })
  Edge-IsWithin (requeues now p k e) w =
      rw e (record { queued = λ h. ground (arith, k); counted = w.counted })
  Edge-IsWithin (exhausts now p k e) w = rw e (record { queued = λ h. cc; counted = w.counted })
  Edge-IsWithin (leases v at p e) w =
      rw e (record { queued = λ h. cc; counted = omega (arith, w.queued (rw p (ground arith))) })
  Edge-IsWithin (expires now gone p e) w = rw e (record { queued = λ h. cc; counted = w.counted })
  Edge-IsWithin (delivers v now p e) w = rw e (record { queued = λ h. cc; counted = w.counted })
  Edge-IsWithin (fails v now c p k e) w = rw e (record { queued = λ h. cc; counted = w.counted })
  Edge-IsWithin (retries v now c p k e) w =
      rw e (record { queued = λ h. ground (arith, k); counted = w.counted })

  Edge-moves_left :
      Edge settings d d' → IsWithin settings d → moves_left settings d' < moves_left settings d
  Edge-moves_left (admits now p e) w = rw (e, pending_lem d.state p) (omega arith)
  Edge-moves_left (drops now drop p k e) w =
      let (q, t) = drop_lem drop.state k in rw (e, t, pending_lem d.state p) (omega arith)
  Edge-moves_left (requeues now p k e) w = rw (e, in_flight_lem d.state p) (omega arith)
  Edge-moves_left (exhausts now p k e) w = rw (e, in_flight_lem d.state p) (omega arith)
  Edge-moves_left (leases v at p e) w =
      let left = w.queued (rw p (ground arith)) in rw (e, ready_lem d.state p) (omega (arith, left))
  Edge-moves_left (expires now gone p e) w = rw (e, ready_lem d.state p) (omega arith)
  Edge-moves_left (delivers v now p e) w =
      rw (e, in_flight_lem d.state (ground arith)) (omega arith)
  Edge-moves_left (fails v now c p k e) w =
      rw (e, in_flight_lem d.state (ground arith)) (omega arith)
  Edge-moves_left (retries v now c p k e) w =
      rw (e, in_flight_lem d.state (ground arith)) (omega arith)

  Edge-live : Edge settings d d' → is_terminal d.state ≡ false
  Edge-live e = elim (Bool-cases (is_terminal d.state)) [
    | inr h ↦ h
    | inl h ↦
        let (p, r, f) = terminal_lem d.state h in
        elim e [
          | admits now q k ↦ cc
          | drops now drop q x k ↦ cc
          | requeues now q x k ↦ cc
          | exhausts now q x k ↦ cc
          | leases v at q k ↦ cc
          | expires now gone q k ↦ cc
          | delivers v now q k ↦ ground (arith, q)
          | fails v now c q x k ↦ ground (arith, q)
          | retries v now c q x k ↦ ground (arith, q)
        ]
  ]

module _ (settings : Settings) (d : Delivery) where
  pub Course-IsWithin :
      (e : Delivery) → Course settings d e → IsWithin settings d → IsWithin settings e
  Course-IsWithin e stays w = w
  Course-IsWithin f (moves {e} p k) w = Edge-IsWithin settings e f k (Course-IsWithin e p w)

  -- The life of a delivery is finite. From a row within its attempts, which a new delivery is
  -- where an attempt is allowed at all, any sequence of moves of the conductor and the workers,
  -- retries and lost leases included, is at most three moves for each attempt that is left and those
  -- of the row's state.
  pub path_length_bounded :
      (e : Delivery) (p : Course settings d e)
      → IsWithin settings d
      → path_length p + moves_left settings e ≤ moves_left settings d
  path_length_bounded e stays w = omega arith
  path_length_bounded f (moves {e} p k) w =
      omega
        (arith, Edge-moves_left settings e f k (Course-IsWithin e p w), path_length_bounded e p w)

  -- A delivery that has reached a terminal state has no move left: whatever runs, its row stays
  -- exactly as it is.
  pub Course-final : (e : Delivery) → Course settings d e → is_terminal d.state ≡ true → e ≡ d
  Course-final e stays h = refl
  Course-final f (moves {e} p k) h =
      let bad : true ≡ false =
        sym h
        ∙ ap (λ (x : Delivery). is_terminal x.state) (sym (Course-final e p h))
        ∙ Edge-live settings e f k in
      cc

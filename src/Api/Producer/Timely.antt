-- ===== src/Api/Producer/Timely.antt =====
-- When the producer's events occur.
use webhook_recovery.Prelude.{
  ℕ, zero, suc, ◌+◌, ◌-◌, ◌≤◌, ◌<◌, ◌≡◌, refl, inl, inr, not, ◌||◌, Option, some, List, [], ◌∷◌,
  leb, All, All-mono, All-append, All-order_by, arith, Bool-cases,
}
use webhook_recovery.Core.Enums.{is_paused}
use webhook_recovery.Core.Settings.{Settings}
use webhook_recovery.Core.Models.{Simulation, Store}
use webhook_recovery.Core.Clock.{from_row, now_at, virtual_epoch_zero}
use webhook_recovery.Core.Scenario.{is_producing}
use webhook_recovery.Api.Ingest.{EventSpec}
use webhook_recovery.Api.Producer.{
  EventTypeSpec, event_mix, Rng, SimulationState, one, ones, count_of, draw_all, occurred_or, draw,
  state_of, since_of, start_of, emit,
}

-- An event that says when it occurred, and within a window.
pub record OccursIn (first last : ℕ) (spec : EventSpec) : Type 0 where
  pub at : ℕ
  pub occurs : spec.occurred_at ≡ some at
  pub not_before : first ≤ at
  pub not_after : at ≤ last

module _ (rng : Rng) (uniform_in : (window n : ℕ) → rng.uniform window n ≤ window)
    (since window : ℕ) where
  ones-OccursIn :
      (spec : EventTypeSpec) (sequence n : ℕ)
      → All (OccursIn since (since + window)) (ones rng spec since window sequence n)
  unfolding ones one
  ones-OccursIn spec sequence zero = tt
  ones-OccursIn spec sequence (suc n) = (
    record {
      at = since + rng.uniform window (sequence + 1);
      occurs = refl;
      not_before = omega arith;
      not_after = omega (arith, uniform_in window (sequence + 1));
    },
    ones-OccursIn spec (sequence + 1) n,
  )

  draw_all-OccursIn :
      (specs : List EventTypeSpec) (sequence : ℕ)
      → All (OccursIn since (since + window)) (draw_all rng since window specs sequence).0
  unfolding draw_all
  draw_all-OccursIn [] sequence = tt
  draw_all-OccursIn (spec ∷ specs) sequence =
      let n = count_of rng spec window sequence in
      All-append (OccursIn since (since + window)) (ones rng spec since window sequence n)
        (draw_all rng since window specs (sequence + n)).0 (ones-OccursIn spec sequence n)
        (draw_all-OccursIn specs (sequence + n))

  draw-OccursIn :
      (sequence : ℕ) → All (OccursIn since (since + window)) (draw rng since window sequence).0
  unfolding draw
  draw-OccursIn sequence =
      All-order_by (OccursIn since (since + window)) (occurred_or since) _
        (draw_all-OccursIn event_mix sequence)

module _ (settings : Settings) (sim : Simulation) (rng : Rng)
    (uniform_in : (window n : ℕ) → rng.uniform window n ≤ window) (at_wall : ℕ) (store : Store)
    (known : Option SimulationState) where
  abbrev now : ℕ
  now = now_at (from_row sim) at_wall

  abbrev state : SimulationState
  state = state_of sim store known

  -- What a call of `_emit_for` leaves and emits.
  pub record IsTimely (after : Option SimulationState) (specs : List EventSpec) : Type 0 where
    pub recent : All (OccursIn (now - settings.producer_max_catchup_virtual_s) now) specs
    pub covered : All (OccursIn (since_of state) (since_of (state_of sim store after))) specs
    pub forward : since_of state ≤ since_of (state_of sim store after)

  abbrev start : ℕ
  start = start_of settings now state

  start_late : (since_of state ≤ start) × (now - settings.producer_max_catchup_virtual_s ≤ start)
  start_late = (ground arith, ground arith)

  start_early : since_of state < now → start ≤ now
  start_early h = ground (arith, h)

  narrower :
      (first last first' last' : ℕ)
      → first' ≤ first
      → last ≤ last'
      → (spec : EventSpec) → OccursIn first last spec
      → OccursIn first' last' spec
  narrower first last first' last' h k spec o = record {
    at = o.at;
    occurs = o.occurs;
    not_before = omega (arith, o.not_before, h);
    not_after = omega (arith, o.not_after, k);
  }

  -- With times drawn inside their window: the events that the producer emits for a simulation occur
  -- no earlier than the time that it remembers of the last emission, no later than the time that it
  -- remembers afterwards or than the clock's, and no earlier than the longest catch-up before that;
  -- and the time that it remembers never goes back.
  pub emit-IsTimely :
      let (after, specs) = emit settings sim rng at_wall store known in IsTimely after specs
  unfolding emit
  emit-IsTimely =
      elim (Bool-cases (is_paused sim.status || not (is_producing (now - virtual_epoch_zero)))) [
        | inl e ↦ rw e (record { recent = tt; covered = tt; forward = omega arith })
        | inr e ↦ elim (Bool-cases (leb now (since_of state))) [
          | inl f ↦ rw (e, f) (record { recent = tt; covered = tt; forward = omega arith })
          | inr f ↦
              let h : since_of state < now = ground (arith, f) in
              let drawn = draw-OccursIn rng uniform_in start (now - start) state.sequence in
              let specs = (draw rng start (now - start) state.sequence).0 in
              let last : start + (now - start) ≤ now = omega (arith, start_early h) in
              rw (e, f)
                (record {
                  recent =
                      All-mono (OccursIn start (start + (now - start))) _
                        (narrower start (start + (now - start))
                          (now - settings.producer_max_catchup_virtual_s) now start_late.1 last)
                        specs drawn;
                  covered =
                      All-mono (OccursIn start (start + (now - start))) _
                        (narrower start (start + (now - start)) (since_of state) now start_late.0
                          last)
                        specs drawn;
                  forward = omega (arith, h);
                })
        ]
      ]

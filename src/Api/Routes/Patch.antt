-- ===== src/Api/Routes/Patch.antt =====
-- The clock across a PATCH.
use webhook_recovery.Prelude.{
  ℕ, ◌≡◌, refl, ◌∙◌, sym, subst, ap, Bool, false, ◌&&◌, Option, none, some, arith, inl, inr,
  Option-cases,
}
use webhook_recovery.Core.Enums.{SimStatus, running, paused, done, is_running, is_done}
use webhook_recovery.Core.Models.{Simulation}
use webhook_recovery.Core.Clock.{
  SimulationClockConfig, from_row, now_at, advance, pause, resume, set_speed,
}
use webhook_recovery.Core.Clock.Continuity.{now_at-pause, now_at-resume, now_at-set_speed}
use webhook_recovery.Api.Routes.{
  SimulationPatch, or_keep, write_back, apply_status, apply_speed, patch_simulation,
}

-- The request asks a finished run to go on.
abbrev pub revives : Simulation → SimulationPatch → Bool
revives sim body =
    is_done sim.status && elim body.status [ none ↦ false | some status ↦ is_running status ]

now_at-apply_status :
    (status : Option SimStatus) (current : SimStatus) (config : SimulationClockConfig) (at : ℕ)
    → now_at (apply_status status current config at) at ≡ now_at config at
unfolding apply_status
now_at-apply_status none current config at = refl
now_at-apply_status (some running) current config at = ground (arith, now_at-resume config at)
now_at-apply_status (some paused) current config at = ground (arith, now_at-pause config at)
now_at-apply_status (some done) current config at = ground (arith, now_at-pause config at)

now_at-apply_speed :
    (speed : Option ℕ) (config config' : SimulationClockConfig) (at : ℕ)
    → apply_speed speed config at ≡ some config'
    → now_at config' at ≡ now_at config at
unfolding apply_speed
now_at-apply_speed none config config' at h = ground arith
now_at-apply_speed (some speed) config config' at h =
    ground (arith, now_at-set_speed config config' speed at)

apply_status-running :
    (status : Option SimStatus) (current : SimStatus) (config : SimulationClockConfig) (at : ℕ)
    → config.status ≡ current
    → (is_done current && elim status [ none ↦ false | some s ↦ is_running s ]) ≡ false
    → is_running (or_keep status (apply_status status current config at).status)
      ≡ is_running (apply_status status current config at).status
unfolding apply_status pause resume
apply_status-running none current config at e h = refl
apply_status-running (some running) running config at e h = ground arith
apply_status-running (some running) paused config at e h = ground arith
apply_status-running (some running) done config at e h = ground arith
apply_status-running (some paused) running config at e h = ground arith
apply_status-running (some paused) paused config at e h = ground arith
apply_status-running (some paused) done config at e h = ground arith
apply_status-running (some done) running config at e h = ground arith
apply_status-running (some done) paused config at e h = ground arith
apply_status-running (some done) done config at e h = ground arith

apply_speed-status :
    (speed : Option ℕ) (config config' : SimulationClockConfig) (at : ℕ)
    → apply_speed speed config at ≡ some config'
    → config'.status ≡ config.status
unfolding apply_speed set_speed
apply_speed-status none config config' at h = ground arith
apply_speed-status (some speed) config config' at h = ground arith

running-write_back :
    (sim : Simulation) (body : SimulationPatch) (at : ℕ) (config : SimulationClockConfig)
    → revives sim body ≡ false
    → apply_speed body.speed_multiplier (apply_status body.status sim.status (from_row sim) at) at
      ≡ some config
    → is_running (or_keep body.status config.status) ≡ is_running config.status
running-write_back sim body at config h e =
    let c = apply_status body.status sim.status (from_row sim) at in
    let s = apply_speed-status body.speed_multiplier c config at e in
    subst (λ t. is_running (or_keep body.status t) ≡ is_running t) (sym s)
      (apply_status-running body.status sim.status (from_row sim) at refl h)

now_at-write_back :
    (config : SimulationClockConfig) (status : SimStatus) (at : ℕ)
    → is_running status ≡ is_running config.status
    → now_at (record config { status = status }) at ≡ now_at config at
unfolding now_at
now_at-write_back config status at h = ground arith

-- An accepted request writes back the configuration that its two clock steps give.
patch_simulation-cases :
    (sim sim' : Simulation) (body : SimulationPatch) (at : ℕ)
    → patch_simulation sim body at ≡ some sim'
    → (config : SimulationClockConfig) × (apply_speed body.speed_multiplier
          (apply_status body.status sim.status (from_row sim) at)
          at
        ≡ some config)
      × (from_row sim' ≡ record config { status = or_keep body.status config.status })
unfolding patch_simulation
patch_simulation-cases sim sim' body at h =
    elim (Option-cases (
      apply_speed body.speed_multiplier (apply_status body.status sim.status (from_row sim) at)
        at)) [ inl n ↦ ground arith | inr (config, e) ↦ (config, e, ground arith) ]

-- A PATCH that is accepted, whatever it changes, leaves the virtual time at its moment as it was,
-- provided that it does not ask a finished run to go on.
pub patch_continuous :
    (sim sim' : Simulation) (body : SimulationPatch) (at : ℕ)
    → revives sim body ≡ false
    → patch_simulation sim body at ≡ some sim'
    → now_at (from_row sim') at ≡ now_at (from_row sim) at
patch_continuous sim sim' body at h e =
    let (config, speed, written) = patch_simulation-cases sim sim' body at e in
    let c = apply_status body.status sim.status (from_row sim) at in
    ap (λ r. now_at r at) written
    ∙ now_at-write_back config _ at (running-write_back sim body at config h speed)
    ∙ now_at-apply_speed body.speed_multiplier c config at speed
    ∙ now_at-apply_status body.status sim.status (from_row sim) at

-- A PATCH that sets a finished run running and leaves its speed alone is accepted, and the run then
-- reads the time that its old epoch and wall reference give, as though it had never stopped.
pub patch_revives :
    (sim : Simulation) (body : SimulationPatch) (at : ℕ)
    → sim.status ≡ done
    → body.status ≡ some running
    → body.speed_multiplier ≡ none
    → (sim' : Simulation) × (patch_simulation sim body at ≡ some sim')
      × (now_at (from_row sim') at
          ≡ advance sim.virtual_epoch sim.resumed_at_wall at sim.speed_multiplier)
unfolding patch_simulation apply_status apply_speed resume now_at
patch_revives sim body at finished go same =
    (write_back sim body (from_row sim), ground arith, ground arith)

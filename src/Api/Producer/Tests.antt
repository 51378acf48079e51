-- ===== src/Api/Producer/Tests.antt =====
-- An emission of two virtual seconds into the sample run, three seconds in.
use webhook_recovery.Prelude.{some, ◌+◌, min, arith}
use webhook_recovery.Core.Settings.{default_settings}
use webhook_recovery.Core.Models.{Simulation}
use webhook_recovery.Core.Clock.{virtual_epoch_zero}
use webhook_recovery.Api.Producer.{Rng, SimulationState, emit}
use webhook_recovery.Api.Producer.Timely.{IsTimely, emit-IsTimely}
use webhook_recovery.Tests.Samples.{sample_sim, sample_store}

abbrev three_in : Simulation
three_in = record sample_sim { virtual_epoch = virtual_epoch_zero + 3_000_000 }

abbrev rng : Rng
rng = record {
  random = λ event_type sequence. 500_000_000;
  randrange = λ pool sequence. 3;
  uniform = λ window sequence. min window (sequence + 100);
  hex_key = λ prefix drawn. prefix;
  pool_key = λ prefix drawn. prefix;
}

abbrev remembered : SimulationState
remembered = record { last_emitted = some (virtual_epoch_zero + 1_000_000); sequence = 4 }

emit-IsTimely_example :
    let (after, specs) = emit default_settings three_in rng 50 sample_store (some remembered) in
    IsTimely default_settings three_in rng
      (λ window n. omega arith)
      50
      sample_store
      (some remembered)
      after
      specs
emit-IsTimely_example =
    emit-IsTimely default_settings three_in rng (λ window n. omega arith) 50 sample_store
      (some remembered)

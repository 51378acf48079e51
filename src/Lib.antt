-- ===== src/Lib.antt =====
-- A model of webhook-recovery: a webhook delivery pipeline of three kinds of process over one Postgres
-- database. The API takes events and controls the clock of a simulated run, a single leading conductor
-- decides which pending deliveries become ready, and workers claim, attempt and complete them.
--
-- Files, by the part of the program that they model:
--   Prelude        what the models share: tests on numbers, lists with `order_by` and `take`,
--                  integers, and the effect of `UPDATE ... WHERE` and of `executemany` on a table
--   Core           app/core: Enums (enums.py), Settings (settings.py), Models (models.py), Clock
--                  (clock.py), Scenario (scenario.py), Registry (registry.py, with the process routes
--                  of app/api/routes.py) and Runner (_register_when_ready of runner.py)
--   Conductor      app/conductor: Policy (policy.py), Admission and Selection (admission.py), Gauges
--                  and Metrics (metrics.py), Reaper (reaper.py), Service (service.py), whose `pass`
--                  composes the others, and Leader (leader.py)
--   Worker         app/worker: Claim (claim_batch), Complete (complete_batch) and Backoff of
--                  claim.py, Transport (transport.py) and Service (service.py)
--   Api            app/api: Ingest (ingest.py), Routes (patch_simulation of routes.py) and Producer
--                  (producer.py, with the event mix of app/core/scenario.py)
--   System         the processes together. Rows has the moves of a delivery's state machine, Steps the
--                  transactions of the processes as steps on the database and the batches that
--                  workers have in hand, Orders the order in which a worker runs its own; the
--                  others prove what all their sequences keep
--   Tests          concrete runs, with the Tests modules inside the parts
-- A definition has the name of the function it models. Its child modules hold the proofs.
--
-- The model: a table is a list of rows in the order in which a scan meets them, so where the source
-- leaves the order of ties to the database, ties keep that order. A UUID or a serial id is a number; a
-- time is a number of microseconds since `datetime.min`, a duration a number of microseconds, and a
-- rate, a weight or a speed a number of thousandths: the source's floats are taken to be exact, but the
-- virtual clock rounds to microseconds, halves to even, as `timedelta` does. A reading before
-- `datetime.min` stops there. A ValueError is `none`. Rows that `FOR UPDATE SKIP LOCKED` passes over
-- because another transaction holds them are a parameter, a test on ids. A statement sees the tables as
-- the statements before it in its transaction left them. Each reading of the wall clock is an argument.
--
-- The processes run one transaction after the other, in any order: a step of System is a whole
-- transaction, between a worker's claim and its completion any others may come, and a worker may crash
-- with a batch in hand. What others commit before a worker's claim and during its attempts is a
-- parameter of the worker's pass. The advisory lock is a parameter with the laws that Postgres documents;
-- its sessions stay open when a conductor closes a connection, which goes back to its pool, and end by a
-- step of their own.
--
-- Only the registration loop of the runner runs on fuel: 241 attempts, since each wait takes half a second
-- at least and the deadline is two minutes off. The other loops are over lists, or count slots down.
--
-- Not modelled: HTTP, SQLAlchemy and the schema's constraints; the generators behind the random draws of
-- the transport and the producer, which are parameters; the tasks, signals and shutdown of asyncio;
-- the creation of a simulation but for its seeding; the read routes but that of the processes; the frontend.
pub mod Prelude
pub mod Core
pub mod Conductor
pub mod Worker
pub mod Api
pub mod System
pub mod Tests

-- ===== src/Machine.antt =====
-- packages/durable-machine/src/machine.ts: the vocabulary of a machine, the checks of `make`,
-- and the operations of the machine that it returns. Data (`D`), event payloads (`P`), command
-- payloads (`C`) and facts (`F`) are parameters; a schema is the test of the values it accepts.
pub mod Types
pub mod Defs
pub mod Made
pub mod Stepping
pub mod Release
pub mod Timing
pub mod Codec

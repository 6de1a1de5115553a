-- ===== src/Tests.antt =====
-- Runs of the modelled code at concrete inputs, and the theorems at inputs that meet their
-- hypotheses.
mod CyclesTests
mod ContextsTests
mod DocumentTests
mod DiagnosticsTests
mod InvocationsTests
mod DockerTests
mod SyncTests
mod ParametersTests
mod MachinesTests
mod StepsTests
mod ScalarsTests
mod TreeTests
mod WalkTests

-- ===== src/Manager.antt =====
-- main.go and the `SetupWithManager` functions of the three controllers. What the process calls of
-- controller-runtime, pflag and the runtime package of Flux is a parameter.
pub mod Runtime
pub mod Setup
pub mod Main
pub mod Kinds
pub mod Steps
pub mod Startup
pub mod Failures

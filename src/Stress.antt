-- ===== src/Stress.antt =====
-- native/wayland_egl_stress.c: the client that loads the GPU. `Stress.Setup` and `Stress.Settings` are
-- what it takes from the environment, `Stress.Program` and `Stress.Targets` what it makes of OpenGL ES,
-- `Stress.State` holds its state, `Stress.Timers`, `Stress.Draws`, `Stress.Metrics`, `Stress.Frame` and
-- `Stress.Ui` are what it does in its loop, `Stress.Trace` the loop. The other children are the proofs.
pub mod Setup
pub mod Range
pub mod Surface
pub mod Settings
pub mod Within
pub mod Timers
pub mod Draws
pub mod Switches
pub mod Metrics
pub mod Program
pub mod State
pub mod Frame
pub mod Targets
pub mod Ui
pub mod Trace
pub mod Books
pub mod Search
pub mod Ring
pub mod Counts
mod Tests

-- ===== src/Lib.antt =====
-- webos-wayland: native clients of the Wayland compositor of webOS.
--
-- Two components serve every client, and a renderer uses both:
--   * native/webos_input.c joins the seats of the remote control into one input. The module `Input`
--     holds its state (`Context` for `struct webos_input_context`, with the slots of `seats` by their
--     number), `Input.Focus`, `Input.Events` and `Input.Registry` the functions under their names in
--     the file. `Input.Trace.Event` is what libwayland calls, and `Reach` the contexts that come of it.
--   * native/webos_shell.c follows the surface under the webOS shell. `Shell` holds its state,
--     `Shell.Events` the listeners, `Shell.Setup` binding, attaching and destruction. `Shell.Trace`
--     runs the listeners, and `Shell.Lifetime` also the calls of the client, with the surfaces that
--     `webos_shell_attach` stores over.
--   * native/wayland_rect.c is the renderer on the CPU. `Rect` holds its state (`App` for `struct
--     app`), `Rect.Raster`, `Rect.Paint` and `Rect.Picture` what it paints, `Rect.Buffers` the pool of
--     shared memory, `Rect.Frame` frames, visibility and size, `Rect.Ui` the callbacks that it hands to
--     webos_input.c, `Rect.Trace` the loop of `main`, `Rect.Registry` the globals, which `Rect.Parts`
--     follows over whole conversations with the registry.
--   * native/wayland_egl.c is the renderer on the GPU. `Egl` holds its state, `Egl.Config` is
--     `choose_config`, `Egl.Program` the shaders, `Egl.Setup` the rest of `init_egl` and `main` around its
--     loop, `Egl.Latency` and `Egl.Frame` frames and their samples, `Egl.Ui` the callbacks for
--     webos_input.c, `Egl.Registry` the globals, `Egl.Trace` the loop.
-- The system starts native/native_main.c, the module `Launcher`, which becomes one of the clients: paths
-- are lists of bytes, `launch` is `main` from the search of its directory on, and `set_environment` what
-- it does to the environment before.
-- native/wayland_egl_stress.c is the client that loads the GPU: `Stress.Setup` and `Stress.Settings` are
-- what it takes from the environment and its `choose_config`, with `strtol` and `atoi` as parameters,
-- `Stress.Program` the programs, `Stress.Targets` the textures, `Stress.Timers` the ring of GPU timer
-- queries, `Stress.Draws` the draws of a frame, `Stress.Metrics` the samples, `Stress.State` the state,
-- `Stress.Frame` frames, visibility and size, `Stress.Ui` its input, `Stress.Trace` its loop.
-- `Base` has the names that all share, and `Wayland` what is known of libwayland: a proxy has an
-- identity and a version. The constants of its generated headers are parameters (`Wayland.Headers`,
-- `Shell.ShellHeaders`, `Rect.Ui.Pressed`, `Egl.Config.EglHeaders`).
--
-- How the code is modelled. A function that changes an object takes it and returns it. What a call
-- of libwayland or of the system returns is an argument, or a part of an event, and what is asked of
-- them is written down in order (`sent`, `done`), so the order and the number of the calls are
-- part of the state. A function pointer is an `Option` of a function on the client's state. A
-- `uint32_t` wraps at 2 ^ 32 where the code computes with it, and a `size_t` at a limit that is a
-- parameter, as PATH_MAX is. An `int` of a client is an integer without bounds: its window positions and
-- its counters are taken not to overflow. A read past an array and a division by zero are `none`.
-- Where `wl_seat_get_pointer` or `wl_seat_get_keyboard` gives null, the seat goes on without the device;
-- the code would hand the null to the listener. What a driver answers about GPU timer queries may depend
-- on all that was asked of it before (`Stress.Timers.Driver`).
-- The floating-point numbers are the compiler's, so `float` and `double` are parameters (`Egl.Floats`)
-- of which only the operations are known; what a theorem needs of them is among its hypotheses.
--
-- Loops are recursion on the number of rounds that the code makes. The scan of `handle_exposed` has
-- one round more than the array has numbers as fuel, and running out of it is a fault, which the
-- theorems exclude; the grid of `paint` has extent / 96 + 3 rounds, and `Rect.Grid` shows that more
-- change nothing.
--
-- Not modelled: the lines on stderr and the listeners that only log; the start of the Android
-- sidecar; the exit path of `main` in native/wayland_rect.c; the text of the shaders and what the GPU
-- makes of it; of the stress client the rest of `init_egl`, the registry, the reports and the rest of the
-- end of `main`; native/egl_diagnostics.c and the tools, whose work is done by EGL, the kernel and the
-- GPU driver; the log and the redirected output of native/native_main.c.
pub mod Base
pub mod Wayland
pub mod Input
pub mod Shell
pub mod Rect
pub mod Launcher
pub mod Egl
pub mod Stress

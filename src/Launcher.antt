-- ===== src/Launcher.antt =====
-- native/native_main.c: the program that the system starts, which becomes one of the clients.
-- Paths are lists of bytes. `Launcher.Choice` has the proofs.
pub mod Choice
pub mod Environment
mod Tests
use webos_wayland.Base.{
  ℕ, zero, suc, ◌+◌, ◌-◌, Bool, true, false, not, ◌&&◌, ◌||◌, Option, none, some, List, [], ◌∷◌,
  ◌++◌, if◌then◌else◌, leb, ◌==◌, length, take, is_some, String, str_eq,
}

-- "/", and the names of the clients
abbrev pub slash : ℕ
slash = 47

abbrev pub android_backend : List ℕ
android_backend =
    97 ∷ 110 ∷ 100 ∷ 114 ∷ 111 ∷ 105 ∷ 100 ∷ 95 ∷ 98 ∷ 97 ∷ 99 ∷ 107 ∷ 101 ∷ 110 ∷ 100 ∷ []

abbrev pub client : List ℕ
client = 99 ∷ 108 ∷ 105 ∷ 101 ∷ 110 ∷ 116 ∷ []

abbrev pub wayland_egl : List ℕ
wayland_egl = 119 ∷ 97 ∷ 121 ∷ 108 ∷ 97 ∷ 110 ∷ 100 ∷ 95 ∷ 101 ∷ 103 ∷ 108 ∷ []

abbrev pub wayland_rect : List ℕ
wayland_rect = 119 ∷ 97 ∷ 121 ∷ 108 ∷ 97 ∷ 110 ∷ 100 ∷ 95 ∷ 114 ∷ 101 ∷ 99 ∷ 116 ∷ []

-- What stands before the last slash, as `strrchr` and the zero that is put there leave it.
unfoldable pub before_last : List ℕ → Option (List ℕ)
before_last [] = none
before_last (b ∷ bs) = elim (before_last bs) [
  | some d ↦ some (b ∷ d)
  | none ↦ if b == slash then some [] else none
]

-- `find_bin_dir`, for buffers of `path_max` bytes; `link` is what /proc/self/exe points to, if it can
-- be read. `readlink` is given one byte less than the buffer.
unfoldable pub find_bin_dir : ℕ → Option (List ℕ) → List ℕ
find_bin_dir path_max link = elim link [
  | none ↦ 46 ∷ []
  | some target ↦ elim (take (path_max - 1) target) [
    | [] ↦ 46 ∷ []
    | b ∷ bs ↦ elim (before_last (b ∷ bs)) [ some dir ↦ dir | none ↦ b ∷ bs ]
  ]
]

-- `join_path`: `none` for -1.
unfoldable pub join_path : ℕ → List ℕ → List ℕ → Option (List ℕ)
join_path size dir name =
    let path = dir ++ (slash ∷ name) in if leb size (length path) then none else some path

-- The process as another program, or an exit code.
pub data Outcome : Type 0 where
  replaced : List ℕ → Outcome
  exited : ℕ → Outcome

-- `try_exec` of each path in order, until `execl`, which succeeds where `runs` says so, does not
-- return.
unfoldable pub try_all : (List ℕ → Bool) → List (List ℕ) → Outcome
try_all runs [] = exited 127
try_all runs (p ∷ ps) = let rest = try_all runs ps in if runs p then replaced p else rest

-- `main` from line 96 on, with the directory that it found.
unfoldable pub launch_in : ℕ → String → List ℕ → (List ℕ → Bool) → Outcome
launch_in path_max app_id dir runs = elim (join_path path_max dir android_backend) [
  | none ↦ exited 126
  | some a ↦ elim (join_path path_max dir client) [
    | none ↦ exited 126
    | some c ↦ elim (join_path path_max dir wayland_egl) [
      | none ↦ exited 126
      | some e ↦ elim (join_path path_max dir wayland_rect) [
        | none ↦ exited 126
        | some r ↦
            try_all runs
              (if str_eq app_id "org.webosbrew.android" then a ∷ c ∷ e ∷ r ∷ [] else c ∷ e ∷ r ∷ [])
      ]
    ]
  ]
]

-- `main` from line 83 on, less its log and the redirection of its output.
unfoldable pub launch : ℕ → String → Option (List ℕ) → (List ℕ → Bool) → Outcome
launch path_max app_id link runs = launch_in path_max app_id (find_bin_dir path_max link) runs

-- The environment: the value of each variable that is set.
abbrev pub Environment : Type 0
Environment = String → Option String

abbrev pub unsetenv : String → Environment → Environment
unsetenv name env = λ other. if str_eq other name then none else env other

abbrev pub setenv : String → String → Bool → Environment → Environment
setenv name value overwrite env = λ other.
    if str_eq other name && (overwrite || not (is_some (env name))) then some value else env other

-- lines 73 to 81
unfoldable pub set_environment : String → Environment → Environment
set_environment app_id env = setenv "STRESS_SWAP_INTERVAL" "1" false (
    setenv "STRESS_FORCE_4K" "1" false (
      setenv "EGL_PLATFORM" "wayland" true (
        setenv "DISPLAY_ID" "0" true (
          setenv "WAYLAND_DISPLAY" "wayland-0" true (
            setenv "XDG_RUNTIME_DIR" "/tmp/xdg" true
              (setenv "APP_ID" app_id true (unsetenv "LD_PRELOAD" env)))))))

-- ===== src/Launcher/Choice.antt =====
-- Which client the launcher becomes.
use webos_wayland.Base.{
  ℕ, zero, suc, ◌+◌, ◌-◌, ◌≤◌, ◌<◌, ◌≡◌, ◌≢◌, refl, ap, sym, subst, Bool, true, false, Option, none,
  some, List, [], ◌∷◌, ◌++◌, if◌then◌else◌, length, take, All, String, str_eq, arith, Bool-cases,
  inl, inr,
}
use webos_wayland.Launcher.{
  slash, android_backend, client, wayland_egl, wayland_rect, before_last, find_bin_dir, join_path,
  Outcome, replaced, exited, try_all, launch, launch_in,
}

before_last-name : (name : List ℕ) → All (λ b. b ≢ slash) name → before_last name ≡ none
unfolding before_last
before_last-name [] ok = refl
before_last-name (b ∷ bs) (ne, ok) = rw (before_last-name bs ok) (ground arith)

before_last-append :
    (dir name : List ℕ) → All (λ b. b ≢ slash) name → before_last (dir ++ (slash ∷ name)) ≡ some dir
unfolding before_last
before_last-append [] name ok = rw (before_last-name name ok) refl
before_last-append (b ∷ dir) name ok = rw (before_last-append dir name ok) refl

length-append : (xs ys : List ℕ) → length (xs ++ ys) ≡ length xs + length ys
length-append [] ys = omega arith
length-append (x ∷ xs) ys = omega (arith, length-append xs ys)

take-all : (n : ℕ) (xs : List ℕ) → length xs ≤ n → take n xs ≡ xs
take-all zero [] le = refl
take-all zero (x ∷ xs) le = absurd (omega (arith, le))
take-all (suc n) [] le = refl
take-all (suc n) (x ∷ xs) le = ap (λ l. x ∷ l) (take-all n xs (omega (arith, le)))

-- The path that is read is the launcher's own: its directory is found.
find_bin_dir-append :
    (path_max : ℕ) (dir name : List ℕ)
    → All (λ b. b ≢ slash) name
    → length dir + 1 + length name < path_max
    → find_bin_dir path_max (some (dir ++ (slash ∷ name))) ≡ dir
unfolding find_bin_dir
find_bin_dir-append path_max dir name ok short =
    rw
      (
        find_bin_dir,
        take-all (path_max - 1) (dir ++ (slash ∷ name))
            (omega (arith, short, length-append dir (slash ∷ name))),
      )
      (found dir)
  where
    found :
        (d : List ℕ)
        → elim (d ++ (slash ∷ name)) as (λ l. List ℕ) [
          | [] ↦ 46 ∷ []
          | b ∷ bs ↦ elim (before_last (b ∷ bs)) [ some e ↦ e | none ↦ b ∷ bs ]
        ]
          ≡ d
    found [] = rw (before_last-append [] name ok) refl
    found (b ∷ bs) = rw (before_last-append (b ∷ bs) name ok) refl

join_path-fits :
    (size : ℕ) (dir name : List ℕ)
    → length dir + 1 + length name < size
    → join_path size dir name ≡ some (dir ++ (slash ∷ name))
unfolding join_path
join_path-fits size dir name short = ground (arith, short, length-append dir (slash ∷ name))

join_path-long :
    (size : ℕ) (dir name : List ℕ)
    → size ≤ length dir + 1 + length name
    → join_path size dir name ≡ none
unfolding join_path
join_path-long size dir name long = ground (arith, long, length-append dir (slash ∷ name))

-- The clients of directory `dir` in the order in which they are preferred.
abbrev pub candidates : String → List ℕ → List (List ℕ)
candidates app_id dir =
    if str_eq app_id "org.webosbrew.android"
    then (dir ++ (slash ∷ android_backend))
      ∷ (dir ++ (slash ∷ client))
      ∷ (dir ++ (slash ∷ wayland_egl))
      ∷ (dir ++ (slash ∷ wayland_rect))
      ∷ []
    else (dir ++ (slash ∷ client))
      ∷ (dir ++ (slash ∷ wayland_egl))
      ∷ (dir ++ (slash ∷ wayland_rect))
      ∷ []

-- The outcome is the first of `paths` that runs, or code 127 if none does.
pub data IsChoice (runs : List ℕ → Bool) : List (List ℕ) → Outcome → Type 0 where
  nothing_runs : IsChoice runs [] (exited 127)
  this_runs :
      {p : List ℕ} {ps : List (List ℕ)} → runs p ≡ true → IsChoice runs (p ∷ ps) (replaced p)
  later_runs :
      {p : List ℕ} {ps : List (List ℕ)} {o : Outcome}
      → runs p ≡ false
      → IsChoice runs ps o
      → IsChoice runs (p ∷ ps) o

try_all-IsChoice :
    (runs : List ℕ → Bool) (paths : List (List ℕ)) → IsChoice runs paths (try_all runs paths)
unfolding try_all
try_all-IsChoice runs [] = nothing_runs
try_all-IsChoice runs (p ∷ ps) = elim (Bool-cases (runs p)) [
  | inl e ↦ rw (e, try_all) (this_runs e)
  | inr e ↦ rw (e, try_all) (later_runs e (try_all-IsChoice runs ps))
]

launch_in-IsChoice :
    (path_max : ℕ) (app_id : String) (dir : List ℕ) (runs : List ℕ → Bool)
    → length dir + 16 < path_max
    → IsChoice runs (candidates app_id dir) (launch_in path_max app_id dir runs)
unfolding launch_in
launch_in-IsChoice path_max app_id dir runs short =
    rw
      (
        launch_in,
        join_path-fits path_max dir android_backend (omega (arith, short)),
        join_path-fits path_max dir client (omega (arith, short)),
        join_path-fits path_max dir wayland_egl (omega (arith, short)),
        join_path-fits path_max dir wayland_rect (omega (arith, short)),
      )
      (try_all-IsChoice runs (candidates app_id dir))

-- From its own path `dir/name`, where `name` has no slash and both that path and the longest name of a
-- client in `dir` fit in `path_max` bytes, the launcher becomes the first client in `dir` that
-- runs, the Android one only under its own id, and exits with 127 if none does.
pub launch-IsChoice :
    (path_max : ℕ) (app_id : String) (dir name : List ℕ) (runs : List ℕ → Bool)
    → All (λ b. b ≢ slash) name
    → length dir + 1 + length name < path_max
    → length dir + 16 < path_max
    → IsChoice runs
        (candidates app_id dir)
        (launch path_max app_id (some (dir ++ (slash ∷ name))) runs)
unfolding launch
launch-IsChoice path_max app_id dir name runs ok own short =
    subst (λ d. IsChoice runs (candidates app_id dir) (launch_in path_max app_id d runs))
      (sym (find_bin_dir-append path_max dir name ok own))
      (launch_in-IsChoice path_max app_id dir runs short)

-- Whatever the launcher reads as its path, a directory that leaves no room for the name of the Android
-- client makes it exit with 126, and it tries no client.
pub launch-too_long :
    (path_max : ℕ) (app_id : String) (link : Option (List ℕ)) (runs : List ℕ → Bool)
    → path_max ≤ length (find_bin_dir path_max link) + 16
    → launch path_max app_id link runs ≡ exited 126
unfolding launch launch_in
launch-too_long path_max app_id link runs long =
    rw
      (
        launch_in,
        join_path-long path_max (find_bin_dir path_max link) android_backend (omega (arith, long)),
      )
      refl

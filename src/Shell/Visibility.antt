-- ===== src/Shell/Visibility.antt =====
-- The visibility that a client is told.
use webos_wayland.Base.{
  ◌*◌, ◌≡◌, refl, ℤ, Bool, true, false, not, ◌&&◌, ◌||◌, Option, some, List, [], ◌∷◌, ◌==◌, length,
  arith, ◌∙◌, ap, Bool-cases, inl, inr, sym, call_if_set, if◌then◌else◌,
}
use webos_wayland.Shell.{ShellHeaders, ShellContext}
use webos_wayland.Shell.Events.{
  update_visibility, bool_eq, handle_state_changed, handle_exposed, handle_close, WlArray,
  scan_array,
}
use webos_wayland.Shell.Setup.{context_init}
use webos_wayland.Shell.Exposed.{has_area, scan_array_lem}
use webos_wayland.Shell.Trace.{
  Event, state_changed, exposed, close, handle, run, as_array, state_shows, area_shows,
}

-- A client that writes down what its visibility handler is told, the newest first, and whether it
-- was asked to close.
pub record Diary : Type 0 where
  pub told : List Bool
  pub asked_to_close : Bool

abbrev pub note_visibility : Diary → Bool → Diary
note_visibility d visible = record d { told = visible ∷ d.told }

abbrev pub note_close : Diary → Diary
note_close d = record d { asked_to_close = true }

-- What a client takes the surface to be: visible until it is told otherwise.
abbrev pub newest : List Bool → Bool
newest [] = true
newest (b ∷ bs) = b

-- Every entry differs from the one before it: the handler is called for changes only.
abbrev pub Alternates : List Bool → Type 0
Alternates [] = Unit {0}
Alternates (b ∷ bs) = (b ≡ not (newest bs)) × Alternates bs

-- The state of the context and of its diary agree.
record IsNoted (c : ShellContext Diary) : Type 0 where
  noting : c.visibility_handler ≡ some note_visibility
  closing : c.close_handler ≡ some note_close
  current : c.effective_visible ≡ (c.state_visible && (not c.have_exposed || c.exposed_visible))
  seen : newest c.client.told ≡ c.effective_visible
  changes : Alternates c.client.told

-- The flag `visible` and the diary, after the flag took the value `v`.
IsNoted-at :
    (v : Bool) (c : ShellContext Diary)
    → c.visibility_handler ≡ some note_visibility
    → c.close_handler ≡ some note_close
    → newest c.client.told ≡ c.effective_visible
    → Alternates c.client.told
    → v ≡ (c.state_visible && (not c.have_exposed || c.exposed_visible))
    → IsNoted (
        if bool_eq v c.effective_visible then c else record c {
          effective_visible = v;
          client = call_if_set c.visibility_handler (λ f. f c.client v) c.client;
        })
IsNoted-at v c h k s a e = elim (Bool-cases (bool_eq v c.effective_visible)) [
  | inl same ↦ rw same (record {
    noting = h;
    closing = k;
    current = sym (bool_eq→≡ v c.effective_visible same) ∙ e;
    seen = s;
    changes = a;
  })
  | inr other ↦
      rw (other, h)
        (record {
          noting = refl;
          closing = k;
          current = e;
          seen = refl;
          changes = (≡-not v c.effective_visible other ∙ ap not (sym s), a);
        })
]
  where
    bool_eq→≡ : (x y : Bool) → bool_eq x y ≡ true → x ≡ y
    bool_eq→≡ x y p = ground arith

    ≡-not : (x y : Bool) → bool_eq x y ≡ false → x ≡ not y
    ≡-not x y p = ground arith

-- `update_visibility` brings the diary up to date, whatever flag was changed before.
update_visibility-IsNoted :
    (c : ShellContext Diary)
    → c.visibility_handler ≡ some note_visibility
    → c.close_handler ≡ some note_close
    → newest c.client.told ≡ c.effective_visible
    → Alternates c.client.told
    → IsNoted (update_visibility c)
unfolding update_visibility
update_visibility-IsNoted c h k s a =
    IsNoted-at (c.state_visible && (not c.have_exposed || c.exposed_visible)) c h k s a refl

flags-update_visibility :
    {D : Type 0} (c : ShellContext D)
    → ((update_visibility c).state_visible ≡ c.state_visible)
      × ((not (update_visibility c).have_exposed || (update_visibility c).exposed_visible)
          ≡ (not c.have_exposed || c.exposed_visible))
unfolding update_visibility
flags-update_visibility c =
    elim (Bool-cases (
      bool_eq (c.state_visible && (not c.have_exposed || c.exposed_visible)) c.effective_visible)) [
        | inl same ↦ rw same (refl, refl)
        | inr other ↦ rw other (refl, refl)
      ]

pub scan_array-as_array : (values : List ℤ) → scan_array (as_array values) ≡ some (has_area values)
scan_array-as_array values =
    scan_array_lem (record { size = length values * 4; values = some values }) values
      (refl, omega arith)

pub handle_exposed-of_scan :
    {D : Type 0} (c : ShellContext D) (rectangles : Option WlArray) {v : Bool}
    → scan_array rectangles ≡ some v
    → handle_exposed rectangles c
      ≡ some (update_visibility (record c { have_exposed = true; exposed_visible = v }))
unfolding handle_exposed
handle_exposed-of_scan c rectangles e = rw (e, handle_exposed)

-- Every event is handled without a fault, keeps the diary right, and changes the flags as it says.
record Handled (sh : ShellHeaders) (e : Event) (c : ShellContext Diary) : Type 0 where
  after : ShellContext Diary
  result : handle sh e c ≡ some after
  noted : IsNoted after
  state_flag : after.state_visible ≡ state_shows sh c.state_visible (e ∷ [])
  area_flag :
      (not after.have_exposed || after.exposed_visible)
      ≡ area_shows (not c.have_exposed || c.exposed_visible) (e ∷ [])

handle-Handled :
    (sh : ShellHeaders) (e : Event) (c : ShellContext Diary) → IsNoted c → Handled sh e c
unfolding handle handle_state_changed handle_exposed handle_close state_shows area_shows
handle-Handled sh (state_changed state) c n = record {
  after = update_visibility c';
  result = refl;
  noted = update_visibility-IsNoted c' n.noting n.closing n.seen n.changes;
  state_flag = (flags-update_visibility c').0;
  area_flag = (flags-update_visibility c').1;
}
  where
    c' : ShellContext Diary
    c' = record c { state = state; state_visible = not (state == sh.state_minimized) }
handle-Handled sh (exposed values) c n = record {
  after = update_visibility c';
  result = handle_exposed-of_scan c (as_array values) (scan_array-as_array values);
  noted = update_visibility-IsNoted c' n.noting n.closing n.seen n.changes;
  state_flag = (flags-update_visibility c').0;
  area_flag = (flags-update_visibility c').1;
}
  where
    c' : ShellContext Diary
    c' = record c { have_exposed = true; exposed_visible = has_area values }
handle-Handled sh close c n = record {
  after = handle_close c;
  result = refl;
  noted = ground arith;
  state_flag = refl;
  area_flag = refl;
}

state_shows-cons :
    (sh : ShellHeaders) (now : Bool) (e : Event) (es : List Event)
    → state_shows sh (state_shows sh now (e ∷ [])) es ≡ state_shows sh now (e ∷ es)
unfolding state_shows
state_shows-cons sh now (state_changed state) es = refl
state_shows-cons sh now (exposed values) es = refl
state_shows-cons sh now close es = refl

area_shows-cons :
    (now : Bool) (e : Event) (es : List Event)
    → area_shows (area_shows now (e ∷ [])) es ≡ area_shows now (e ∷ es)
unfolding area_shows
area_shows-cons now (state_changed state) es = refl
area_shows-cons now (exposed values) es = refl
area_shows-cons now close es = refl

-- The last state and the last rectangles decide; a run of events never faults.
record Ran (sh : ShellHeaders) (es : List Event) (c : ShellContext Diary) : Type 0 where
  after : ShellContext Diary
  result : run sh c es ≡ some after
  noted : IsNoted after
  state_flag : after.state_visible ≡ state_shows sh c.state_visible es
  area_flag :
      (not after.have_exposed || after.exposed_visible)
      ≡ area_shows (not c.have_exposed || c.exposed_visible) es

run-Ran : (sh : ShellHeaders) (es : List Event) (c : ShellContext Diary) → IsNoted c → Ran sh es c
unfolding run state_shows area_shows
run-Ran sh [] c n = record {
  after = c;
  result = refl;
  noted = n;
  state_flag = refl;
  area_flag = refl;
}
run-Ran sh (e ∷ es) c n =
    let h = handle-Handled sh e c n in
    let r = run-Ran sh es h.after h.noted in
    record {
      after = r.after;
      result = rw (h.result, run) r.result;
      noted = r.noted;
      state_flag = r.state_flag ∙ rw h.state_flag (state_shows-cons sh c.state_visible e es);
      area_flag =
          r.area_flag
          ∙ rw h.area_flag (area_shows-cons (not c.have_exposed || c.exposed_visible) e es);
    }

-- From `webos_shell_context_init` on, every run of events is handled without a fault, and what the
-- client takes the surface to be is then right: visible exactly if the last state was not the
-- minimized one and the last rectangles, if any came, had an area. Its handler was called only
-- when that changed, so what it was told alternates.
pub run-told :
    (sh : ShellHeaders) (es : List Event)
    → (c : ShellContext Diary) × (run sh
          (context_init sh
            (record { told = []; asked_to_close = false })
            (some note_visibility)
            (some note_close))
          es
        ≡ some c)
      × (newest c.client.told ≡ (state_shows sh true es && area_shows true es))
      × Alternates c.client.told
unfolding context_init
run-told sh es =
    let r = run-Ran sh es _ (ground arith) in
    (
      r.after,
      r.result,
      r.noted.seen ∙ r.noted.current ∙ rw (r.state_flag, r.area_flag) refl,
      r.noted.changes,
    )

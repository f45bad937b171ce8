-- ===== src/Shell/Events.antt =====
-- native/webos_shell.c, lines 9 to 113: the listener of the shell surface. `handle_position_changed`,
-- `handle_state_about_to_change` and `handle_addon_status_changed` only log, and are left out.
use webos_wayland.Base.{
  ℕ, zero, suc, ◌+◌, ◌-◌, ◌/◌, ℤ, pos, negsuc, Bool, true, false, not, ◌&&◌, ◌||◌, Option, none,
  some, List, if◌then◌else◌, ltb, ltb_ℤ, ◌==◌, get_elem?, call_if_set,
}
use webos_wayland.Shell.{ShellHeaders, ShellContext}

abbrev pub bool_eq : Bool → Bool → Bool
bool_eq true b = b
bool_eq false b = not b

abbrev pub is_positive : ℤ → Bool
is_positive z = ltb_ℤ (pos 0) z

-- `values[i] == -1`
abbrev pub is_end : ℤ → Bool
is_end (pos n) = false
is_end (negsuc n) = n == 0

-- `struct wl_array` of `int32_t`: its size in bytes, and the integers that `data` points to.
pub record WlArray : Type 0 where
  pub size : ℕ
  pub values : Option (List ℤ)

-- The loop of `handle_exposed` from index `i` on. `none` is a read past the array, or that the fuel
-- ran out. The number of rectangles is only logged, and left out.
unfoldable pub scan : ℕ → List ℤ → ℕ → ℕ → Bool → Option Bool
scan zero values count i visible = none
scan (suc fuel) values count i visible = elim (ltb i count) [
  | false ↦ some visible
  | true ↦ elim (get_elem? values i) [
    | none ↦ none
    | some x ↦ elim (is_end x || ltb (count - i) 4) [
      | true ↦ some visible
      | false ↦ elim (get_elem? values (i + 2)) [
        | none ↦ none
        | some w ↦ elim (is_positive w) [
          | false ↦ scan fuel values count (i + 4) visible
          | true ↦ elim (get_elem? values (i + 3)) [
            | none ↦ none
            | some h ↦ scan fuel values count (i + 4) (is_positive h || visible)
          ]
        ]
      ]
    ]
  ]
]

-- What `handle_exposed` finds in its argument; a null array or null data has no value.
unfoldable pub scan_array : Option WlArray → Option Bool
unfolding scan
scan_array none = some false
scan_array (some a) = elim a.values [
  | none ↦ some false
  | some values ↦ scan (suc (a.size / 4)) values (a.size / 4) 0 false
]

module _ {D : Type 0} where
  unfoldable pub update_visibility : ShellContext D → ShellContext D
  update_visibility c =
      let visible = c.state_visible && (not c.have_exposed || c.exposed_visible) in
      if bool_eq visible c.effective_visible then c else record c {
        effective_visible = visible;
        client = call_if_set c.visibility_handler (λ f. f c.client visible) c.client;
      }

  unfoldable pub handle_state_changed : ShellHeaders → ℕ → ShellContext D → ShellContext D
  unfolding update_visibility
  handle_state_changed sh state c =
      update_visibility
        (record c { state = state; state_visible = not (state == sh.state_minimized) })

  unfoldable pub handle_close : ShellContext D → ShellContext D
  handle_close c = record c { client = call_if_set c.close_handler (λ f. f c.client) c.client }

  -- `none` is the fault of `scan`.
  unfoldable pub handle_exposed : Option WlArray → ShellContext D → Option (ShellContext D)
  unfolding update_visibility
  handle_exposed rectangles c = elim (scan_array rectangles) [
    | none ↦ none
    | some visible ↦
        some (update_visibility (record c { have_exposed = true; exposed_visible = visible }))
  ]

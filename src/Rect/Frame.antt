-- ===== src/Rect/Frame.antt =====
-- native/wayland_rect.c, lines 490 to 572: frames, visibility and size.
use webos_wayland.Base.{
  ℕ, ◌+◌, ℤ, pos, Bool, true, false, not, ◌&&◌, ◌||◌, Option, none, some, List, [], ◌∷◌, ◌++◌,
  if◌then◌else◌, ltb_ℤ, get_elem?, set, is_some,
}
use webos_wayland.Wayland.{Proxy}
use webos_wayland.Rect.{
  ShmBuf, Effect, App, attach, damage, request_frame, destroy_callback, commit, flush,
}
use webos_wayland.Rect.Picture.{paint, paint_faults}
use webos_wayland.Rect.Buffers.{
  Allocation, emit, eq_ℤ, next_buffer, destroy_buffers, set_surface_opaque,
}

-- What the system and libwayland answer within one event: to `init_buffer`, to
-- `android_sidecar_ready`, to `wl_surface_frame` and to `wl_compositor_create_region`.
pub record Answers : Type 0 where
  pub allocation : Allocation
  pub android_ready : Bool
  pub callback : Option Proxy
  pub region : Bool

abbrev pub drop_callback : Option Proxy → List Effect
drop_callback none = []
drop_callback (some cb) = destroy_callback cb ∷ []

-- the pixels behind `b->data`
abbrev pub pixels_of : ShmBuf → List ℕ
pixels_of b = elim b.pixels [ none ↦ [] | some p ↦ p ]

-- `render` from line 534 on: slot `i`, which holds `b`, is painted and shown.
unfoldable pub show : Answers → ℕ → ShmBuf → App → App
unfolding paint
show r i b a =
    let (a', p) = paint r.android_ready a (pixels_of b) in
    emit
      (attach b.wlbuf
        ∷ damage a'.width a'.height
        ∷ (drop_callback a'.frame_cb ++ (request_frame r.callback ∷ commit ∷ flush ∷ [])))
      (record a' {
        bufs = set a'.bufs i (record b { pixels = some p; busy = true });
        frame_cb = r.callback;
      })

-- `render`. `none` is the division by zero of `paint`, which ends the program. A missing buffer only
-- flushes.
unfoldable pub render : ℕ → Answers → App → Option App
unfolding next_buffer show paint_faults
render size_limit r a =
    if a.running && a.render_visible
    then (let (found, a') = next_buffer size_limit r.allocation a in
        elim found [
          | none ↦ some (emit (flush ∷ []) a')
          | some i ↦ elim (get_elem? a'.bufs i) [
            | none ↦ none
            | some b ↦ if paint_faults a' then none else some (show r i b a')
          ]
        ])
    else some a

-- `webos_visibility_changed`
unfoldable pub visibility_changed : ℕ → Answers → Bool → App → Option App
unfolding render
visibility_changed size_limit r visible a =
    let a' = record a { render_visible = visible } in
    if not visible && is_some a.frame_cb
    then some (emit (drop_callback a.frame_cb) (record a' { frame_cb = none }))
    else if visible && a.running && not (is_some a.frame_cb) && is_some a.surface
    then render size_limit r a'
    else some a'

-- `webos_close_requested`
unfoldable pub close_requested : App → App
close_requested a = record a { running = false }

-- `frame_done`, with the callback that it is handed
unfoldable pub frame_done : ℕ → Answers → Option Proxy → App → Option App
unfolding render
frame_done size_limit r cb a =
    let a' = emit (drop_callback cb) (record a { frame_cb = none }) in
    if a.running && a.render_visible
    then render size_limit r (record a' { frame = a.frame + 1 })
    else some a'

-- `shell_configure`
unfoldable pub shell_configure : Answers → ℤ → ℤ → App → App
unfolding destroy_buffers set_surface_opaque
shell_configure r width height a =
    if ltb_ℤ (pos 0) width
      && ltb_ℤ (pos 0) height
      && (not (eq_ℤ width a.width) || not (eq_ℤ height a.height))
    then set_surface_opaque r.region (destroy_buffers (record a { width = width; height = height }))
    else a

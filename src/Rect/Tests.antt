-- ===== src/Rect/Tests.antt =====
-- A small window that is shown, dragged and hidden: the theorems at work.
use webos_wayland.Base.{
  ℕ, ◌+◌, ◌-◌, ◌*◌, ◌%◌, ◌^◌, ◌≤◌, ◌≡◌, refl, ℤ, pos, negsuc, sub_ℕ, ◌+ℤ◌, ◌-ℤ◌, true, false, none,
  Option, some, List, [], ◌∷◌, ◌++◌, total, is_some, get_elem?, if◌then◌else◌, arith, replicate,
  length, length-replicate, pos_part, ◌/◌,
}
use webos_wayland.Wayland.{Proxy, Headers}
use webos_wayland.Input.Registry.{context_init as init_input}
use webos_wayland.Shell.Setup.{context_init as init_shell}
use webos_wayland.Rect.Registry.{Globals}
use webos_wayland.Rect.Parts.{
  Notice, announced, withdrawn, listen, handle_of, three_at_most, input_of, shell_of, listen-parts,
}
use webos_wayland.Rect.{ShmBuf, App, flush, destroy_callback}
use webos_wayland.Rect.Raster.{rect}
use webos_wayland.Rect.Picture.{paint_faults}
use webos_wayland.Rect.Paint.{upright, level, lines}
use webos_wayland.Rect.Buffers.{
  allocated, allocate, init_buffer, next_buffer, next_from, clear_buffer, int32_max,
  destroy_buffers, set_surface_opaque,
}
use webos_wayland.Rect.Frame.{Answers, show, render, visibility_changed, frame_done}
use webos_wayland.Rect.Ui.{Pressed, pointer_button, left_button}
use webos_wayland.Rect.Pixels.{covers, rect_lem}
use webos_wayland.Rect.Pool.{opened, closed, mapped, unmapped, created, destroyed}
use webos_wayland.Rect.Choice.{IsChosen, next_buffer-IsChosen}
use webos_wayland.Rect.Trace.{visibility, handle, start, first_frame, here, next}
use webos_wayland.Rect.Lifetime.{destroy_buffers-releases_pool}
use webos_wayland.Rect.Still.{commits}
use webos_wayland.Rect.Hidden.{handle-hides}
use webos_wayland.Rect.Grid.{grid-lines}
use webos_wayland.Rect.Size.{Holds, area, pixels_of, init_buffer-whole, init_buffer-wraps}
use webos_wayland.Rect.Stall.{release, idle_run, frame_done-stalls}
use webos_wayland.Rect.Drag.{follow, drag_lem}

abbrev wl : Pressed
wl = record { button = 1; key = 1 }

abbrev proxy : ℕ → Proxy
proxy id = record { id = id; version = 1 }

abbrev memory : ℕ → List ℕ
memory bytes = replicate (bytes / 4) 0

quotient_lem : (n : ℕ) → n * 4 / 4 ≡ n
quotient_lem n = omega arith

length-memory : (n : ℕ) → length (memory (n * 4)) ≡ n
length-memory n = rw (length-replicate, quotient_lem n) refl

abbrev answers : Answers
answers = record {
  allocation = allocated (proxy 7) (λ bytes. []);
  android_ready = false;
  callback = some (proxy 8);
  region = true;
}

-- a canvas of 3 by 2 pixels, and a rectangle that sticks out of it to the left
abbrev canvas : List ℕ
canvas = replicate 6 0

rect_lem_example : get_elem? (rect canvas 3 2 (negsuc 0) (pos 1) (pos 2) (pos 4) 5) (1 * 3 + 0) ≡ (
    if covers (negsuc 0) (pos 1) (pos 2) (pos 4) 0 1 then some 5 else get_elem? canvas (1 * 3 + 0))
rect_lem_example =
    rect_lem canvas 3 2 refl (negsuc 0) (pos 1) (pos 2) (pos 4) 5 0 1 (omega arith) (omega arith)

abbrev begun : App
unfolding start
begun = start true (proxy 1) (proxy 2)

next_buffer-IsChosen_example :
    IsChosen 0 begun (next_buffer (2 ^ 64) (allocated (proxy 7) memory) begun).1
unfolding next_buffer next_from init_buffer clear_buffer allocate start
next_buffer-IsChosen_example = next_buffer-IsChosen (2 ^ 64) (allocated (proxy 7) memory) begun refl

init_buffer-whole_example :
    (h : Holds
      (allocated (proxy 7) memory)
      (area begun)
      0
      begun
      (init_buffer (2 ^ 64) (allocated (proxy 7) memory) 0 begun).1)
    × (area begun ≤ int32_max)
    × (length (pixels_of h.made) ≡ pos_part begun.width * pos_part begun.height)
unfolding init_buffer allocate start
init_buffer-whole_example =
    init_buffer-whole (allocated (proxy 7) memory) 0 begun length-memory (omega arith) (omega arith)
      refl

-- 65536 by 16385 pixels: 2 ^ 32 + 2 ^ 18 bytes.
abbrev vast : App
unfolding begun
vast = record begun { width = pos 65536; height = pos 16385 }

init_buffer-wraps_example :
    (h : Holds
      (allocated (proxy 7) memory)
      (area vast - 2 ^ 32)
      0
      vast
      (init_buffer (2 ^ 32) (allocated (proxy 7) memory) 0 vast).1)
    × (length (pixels_of h.made) + 2 ^ 30 ≡ pos_part vast.width * pos_part vast.height)
unfolding init_buffer allocate start
init_buffer-wraps_example =
    init_buffer-wraps (allocated (proxy 7) memory) 0 vast length-memory (omega arith) (omega arith)
      (omega arith) refl

grid-lines_example :
    (upright (lines 200 + 4) (sub_ℕ 0 (50 % 96)) 200 100 1
      ≡ upright (lines 200) (sub_ℕ 0 (50 % 96)) 200 100 1)
    × (level (lines 100 + 4) (sub_ℕ 0 (50 % 96)) 200 100 1
        ≡ level (lines 100) (sub_ℕ 0 (50 % 96)) 200 100 1)
grid-lines_example = grid-lines 50 200 100 1 4

-- A press at 300, 190 is on the title bar of the window at 180, 170.
abbrev path : List (ℤ × ℤ)
path = (pos 310, pos 190) ∷ []

abbrev dragged : App
dragged =
    follow (path ++ ((pos 350, pos 150) ∷ []))
      (pointer_button wl begun left_button 1 (pos 300) (pos 190))

drag_lem_example :
    (dragged.win_x ≡ begun.win_x +ℤ (pos 350 -ℤ pos 300))
    × (dragged.win_y ≡ begun.win_y +ℤ (pos 150 -ℤ pos 190))
    × ((follow path (pointer_button wl dragged left_button 0 (pos 350) (pos 150))).win_x
        ≡ dragged.win_x)
    × ((follow path (pointer_button wl dragged left_button 0 (pos 350) (pos 150))).win_y
        ≡ dragged.win_y)
unfolding start ◌+ℤ◌
drag_lem_example = drag_lem wl begun (pos 300) (pos 190) (pos 350) (pos 150) path path 0 refl refl

abbrev held : ShmBuf
held = record {
  wlbuf = some (proxy 7);
  pixels = some [];
  size = 8294400;
  width = pos 1920;
  height = pos 1080;
  busy = true;
}

abbrev all_busy : App
all_busy = record begun { bufs = held ∷ held ∷ held ∷ [] }

-- `frame_done` of this app with `flush` as its only effect but the callback's end.
abbrev stalled : App
stalled = record all_busy { frame = 1; done = destroy_callback (proxy 8) ∷ flush ∷ [] }

stalled-frame_done : frame_done (2 ^ 64) answers (some (proxy 8)) all_busy ≡ some stalled
unfolding frame_done render next_buffer next_from start
stalled-frame_done = refl

frame_done-stalls_example :
    ((idle_run wl (release 0 ∷ release 1 ∷ []) stalled).frame_cb ≡ none)
    × (total commits (idle_run wl (release 0 ∷ release 1 ∷ []) stalled).done
        ≡ total commits all_busy.done)
unfolding start
frame_done-stalls_example =
    frame_done-stalls (2 ^ 64) wl answers (some (proxy 8)) (release 0 ∷ release 1 ∷ []) all_busy
      refl refl stalled-frame_done

-- The first frame, in a buffer that is made for it, and the hiding of the window after it.
abbrev opened_app : App
opened_app = set_surface_opaque true begun

abbrev made : ShmBuf
made = record {
  wlbuf = some (proxy 7);
  pixels = some [];
  size = 8294400;
  width = pos 1920;
  height = pos 1080;
  busy = false;
}

abbrev shown : App
shown = show answers 0 made (next_buffer (2 ^ 64) answers.allocation opened_app).1

shown-first_frame : first_frame (2 ^ 64) answers (start true (proxy 1) (proxy 2)) ≡ some shown
unfolding first_frame render next_buffer next_from init_buffer clear_buffer allocate start
    set_surface_opaque paint_faults
shown-first_frame = refl

abbrev hidden : App
hidden = record shown {
  render_visible = false;
  frame_cb = none;
  done = shown.done ++ (destroy_callback (proxy 8) ∷ []);
}

hidden-handle : handle (2 ^ 64) wl (visibility answers false) shown ≡ some hidden
unfolding handle visibility_changed show
hidden-handle = refl

handle-hides_example :
    (is_some hidden.frame_cb ≡ false) × (total commits hidden.done ≡ total commits shown.done)
handle-hides_example =
    handle-hides (2 ^ 64) wl answers true (proxy 1) (proxy 2) (visibility answers false)
      shown-first_frame here hidden-handle refl

destroy_buffers-releases_pool_example :
    (total opened (destroy_buffers hidden).done ≡ total closed (destroy_buffers hidden).done)
    × (total (mapped 8294400) (destroy_buffers hidden).done
        ≡ total (unmapped 8294400) (destroy_buffers hidden).done)
    × (total (created 7) (destroy_buffers hidden).done
        ≡ total (destroyed 7) (destroy_buffers hidden).done)
destroy_buffers-releases_pool_example =
    destroy_buffers-releases_pool (2 ^ 64) 8294400 7 wl answers true (proxy 1) (proxy 2)
      shown-first_frame (next (visibility answers false) here hidden-handle)

-- The app before the registry tells anything.
abbrev globals : Globals ℕ
globals = record {
  compositor = none;
  shm = none;
  shell = none;
  input = init_input 0 none;
  webos_shell =
      init_shell
        (record {
          state_default = 0;
          state_minimized = 1;
          state_fullscreen = 3;
          key_default = 1;
          key_back = 2;
          key_exit = 8;
        })
        0 none none;
}

abbrev headers : Headers
headers = record {
  pointer_release_since = 3;
  keyboard_release_since = 3;
  seat_release_since = 5;
  capability_pointer = 1;
  capability_keyboard = 2;
  fixed_to_int = λ x. x;
}

abbrev binds : ℕ → ℕ → Option Proxy
binds id version = some (record { id = id; version = version })

-- A seat that comes and goes around a compositor, the webOS shell, and a global that nobody takes.
abbrev notices : List Notice
notices =
    announced 1 "wl_seat" 7 (binds 11)
    ∷ announced 2 "wl_compositor" 5 (binds 12)
    ∷ announced 3 "wl_output" 4 (binds 13)
    ∷ announced 4 "wl_webos_shell" 1 (binds 14)
    ∷ withdrawn 1
    ∷ []

listen-parts_example : listen headers notices globals ≡ record {
  compositor = handle_of "wl_compositor" three_at_most notices none;
  shm = handle_of "wl_shm" (λ version. 1) notices none;
  shell = handle_of "wl_shell" (λ version. 1) notices none;
  input = input_of headers notices globals.input;
  webos_shell = shell_of notices globals.webos_shell;
}
listen-parts_example = listen-parts headers notices globals

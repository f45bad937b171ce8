-- ===== src/Rect/Buffers.antt =====
-- native/wayland_rect.c, lines 191 to 315: the pool of shared-memory buffers.
use webos_wayland.Base.{
  ℕ, zero, suc, ◌*◌, ◌/◌, ◌%◌, ℤ, pos, pos_part, ltb_ℤ, leb_ℤ, Bool, true, false, ◌&&◌, ◌||◌,
  Option, none, some, List, [], ◌∷◌, ◌++◌, if◌then◌else◌, ltb, get_elem?, set, is_some,
}
use webos_wayland.Wayland.{Proxy}
use webos_wayland.Rect.{
  ShmBuf, num_bufs, Effect, open_file, resize_file, close_file, map_memory, unmap_memory,
  create_pool, destroy_pool, create_buffer, destroy_buffer, set_opaque, App,
}

-- INT32_MAX
abbrev pub int32_max : ℕ
int32_max = 2147483647

abbrev pub eq_ℤ : ℤ → ℤ → Bool
eq_ℤ a b = leb_ℤ a b && leb_ℤ b a

-- a slot after `memset`
abbrev pub blank : ShmBuf
blank = record {
  wlbuf = none;
  pixels = none;
  size = 0;
  width = pos 0;
  height = pos 0;
  busy = false;
}

abbrev pub emit : List Effect → App → App
emit es a = record a { done = a.done ++ es }

-- How far the system and libwayland let `init_buffer` come: no temporary file or one that cannot be
-- given its size, no mapping, no pool, no buffer, or a buffer over mapped pixels. The
-- function is `mmap`: the numbers of 32 bits in as many bytes as are mapped.
pub data Allocation : Type 0 where
  no_file : Allocation
  no_size : Allocation
  no_mapping : Allocation
  no_pool : Allocation
  no_buffer : Allocation
  allocated : Proxy → (ℕ → List ℕ) → Allocation

-- `stride * height` as a `size_t`, whose numbers are below `size_limit`
abbrev pub byte_size : ℕ → App → ℕ
byte_size size_limit a = pos_part a.width * 4 * pos_part a.height % size_limit

-- The tests of lines 225 and 233.
abbrev pub size_refused : ℕ → App → Bool
size_refused size_limit a =
    leb_ℤ a.width (pos 0)
    || leb_ℤ a.height (pos 0)
    || ltb (int32_max / 4) (pos_part a.width)
    || ltb int32_max (byte_size size_limit a)

-- A mapping that failed is not listed. `init_buffer` from line 238 on, with `create_tmpfile`, which opens a file unless mkstemp fails, and
-- closes it if it cannot be given its size. (Its own test of the size was made before.)
unfoldable pub allocate : ℕ → Allocation → ℕ → App → Bool × App
allocate size no_file i a = (false, a)
allocate size no_size i a = (false, emit (open_file ∷ resize_file size ∷ close_file ∷ []) a)
allocate size no_mapping i a = (false, emit (open_file ∷ resize_file size ∷ close_file ∷ []) a)
allocate size no_pool i a = (
  false,
  emit (open_file ∷ resize_file size ∷ map_memory size ∷ unmap_memory size ∷ close_file ∷ []) a,
)
allocate size no_buffer i a = (
  false,
  emit
      (open_file
        ∷ resize_file size
        ∷ map_memory size
        ∷ create_pool size
        ∷ destroy_pool
        ∷ close_file
        ∷ unmap_memory size
        ∷ [])
      a,
)
allocate size (allocated p memory) i a =
    let b : ShmBuf = record {
      wlbuf = some p;
      pixels = some (memory size);
      size = size;
      width = a.width;
      height = a.height;
      busy = false;
    } in
    (
      true,
      emit
          (open_file
            ∷ resize_file size
            ∷ map_memory size
            ∷ create_pool size
            ∷ create_buffer p a.width a.height (pos_part a.width * 4)
            ∷ destroy_pool
            ∷ close_file
            ∷ [])
          (record a { bufs = set a.bufs i b }),
    )

-- `init_buffer` on slot `i`: the result is false for -1.
unfoldable pub init_buffer : ℕ → Allocation → ℕ → App → Bool × App
unfolding allocate
init_buffer size_limit answer i a =
    if size_refused size_limit a then (false, a) else allocate (byte_size size_limit a) answer i a

-- what giving a buffer up asks for: `wl_buffer_destroy` and `munmap`, where there is something
abbrev pub teardown : ShmBuf → List Effect
teardown b =
    elim b.wlbuf [ none ↦ [] | some p ↦ destroy_buffer p ∷ [] ]
    ++ elim b.pixels [ none ↦ [] | some p ↦ unmap_memory b.size ∷ [] ]

-- The body of the loop of `destroy_buffers`, which is also lines 304 to 306 of `next_buffer`.
unfoldable pub clear_buffer : ℕ → App → App
clear_buffer i a = elim (get_elem? a.bufs i) [
  | none ↦ a
  | some b ↦ emit (teardown b) (record a { bufs = set a.bufs i blank })
]

unfoldable pub destroy_from : ℕ → ℕ → App → App
unfolding clear_buffer
destroy_from zero i a = a
destroy_from (suc n) i a = destroy_from n (suc i) (clear_buffer i a)

unfoldable pub destroy_buffers : App → App
unfolding destroy_from
destroy_buffers a = destroy_from num_bufs 0 a

-- the listener of the buffer in slot `i`
unfoldable pub buffer_release : ℕ → App → App
buffer_release i a = elim (get_elem? a.bufs i) [
  | none ↦ a
  | some b ↦ record a { bufs = set a.bufs i (record b { busy = false }) }
]

-- whether slot `b` has a buffer of the size of the window
abbrev pub fits : App → ShmBuf → Bool
fits a b = is_some b.wlbuf && eq_ℤ b.width a.width && eq_ℤ b.height a.height

-- The loop of `next_buffer` from slot `i` on, `n` rounds.
-- `init_buffer` runs at most once in a call, since the slot that it fills is free and is returned.
unfoldable pub next_from : ℕ → Allocation → ℕ → ℕ → App → Option ℕ × App
unfolding init_buffer clear_buffer
next_from size_limit answer zero i a = (none, a)
next_from size_limit answer (suc n) i a = elim (get_elem? a.bufs i) [
  | none ↦ (none, a)
  | some b ↦ elim (fits a b) [
    | true ↦ elim b.busy [ true ↦ next_from size_limit answer n (suc i) a | false ↦ (some i, a) ]
    | false ↦
        let (made, a') = init_buffer size_limit answer i (clear_buffer i a) in
        if made then (some i, a') else (none, a')
  ]
]

unfoldable pub next_buffer : ℕ → Allocation → App → Option ℕ × App
unfolding next_from
next_buffer size_limit answer a = next_from size_limit answer num_bufs 0 a

-- `set_surface_opaque`; `made` says that `wl_compositor_create_region` did not fail.
unfoldable pub set_surface_opaque : Bool → App → App
set_surface_opaque made a =
    if is_some a.compositor
      && is_some a.surface
      && ltb_ℤ (pos 0) a.width
      && ltb_ℤ (pos 0) a.height
      && made
    then emit (set_opaque a.width a.height ∷ []) a
    else a

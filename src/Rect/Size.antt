-- ===== src/Rect/Size.antt =====
-- What `init_buffer` maps for the buffer that it accepts.
use webos_wayland.Base.{
  ℕ, ◌+◌, List, [], ◌∷◌, ◌++◌, none, ◌*◌, ◌%◌, ◌-◌, ◌^◌, ◌≤◌, ◌<◌, ◌≡◌, refl, pos_part, true, false,
  some, length, get_elem?, get_elem?-set_self, arith, Bool-cases, inl, inr, subst,
}
use webos_wayland.Rect.{
  ShmBuf, App, open_file, resize_file, map_memory, create_pool, create_buffer, destroy_pool,
  close_file,
}
use webos_wayland.Wayland.{Proxy}
use webos_wayland.Rect.Buffers.{
  Allocation, no_file, no_size, no_mapping, no_pool, no_buffer, allocated, allocate, init_buffer,
  byte_size, size_refused, int32_max,
}
use mathlib.Core.Bool.{false≢true}

-- The bytes of a window.
abbrev pub area : App → ℕ
area a = pos_part a.width * 4 * pos_part a.height

-- The numbers behind a mapping of so many bytes.
abbrev pub memory_of : Allocation → ℕ → List ℕ
memory_of (allocated p memory) = memory
memory_of _ = λ bytes. []

abbrev pub pixels_of : ShmBuf → List ℕ
pixels_of b = elim b.pixels [ none ↦ [] | some p ↦ p ]

-- From `a` to `a'` a file of `size` bytes was opened, mapped whole, made a pool of and closed again,
-- and slot `i` holds a free buffer of that pool, as large as the window `a`, with the mapping.
pub record Holds (answer : Allocation) (size i : ℕ) (a a' : App) : Type 0 where
  pub made : ShmBuf
  pub buffer : Proxy
  pub at : get_elem? a'.bufs i ≡ some made
  pub stored : made.wlbuf ≡ some buffer
  pub free : made.busy ≡ false
  pub wide : made.width ≡ a.width
  pub high : made.height ≡ a.height
  pub bytes : made.size ≡ size
  pub filled : made.pixels ≡ some (memory_of answer size)
  pub asked :
      a'.done
      ≡ a.done
        ++ (open_file
            ∷ resize_file size
            ∷ map_memory size
            ∷ create_pool size
            ∷ create_buffer buffer a.width a.height (pos_part a.width * 4)
            ∷ destroy_pool
            ∷ close_file
            ∷ [])

allocate-Holds :
    (size : ℕ) (answer : Allocation) (i : ℕ) (a : App)
    → i < length a.bufs
    → (allocate size answer i a).0 ≡ true
    → Holds answer size i a (allocate size answer i a).1
unfolding allocate
allocate-Holds size (allocated p memory) i a lt made = record {
  made = _;
  buffer = p;
  at = get_elem?-set_self a.bufs i _ lt;
  stored = refl;
  free = refl;
  wide = refl;
  high = refl;
  bytes = refl;
  filled = refl;
  asked = refl;
}
allocate-Holds size no_file i a lt made = cc
allocate-Holds size no_size i a lt made = cc
allocate-Holds size no_mapping i a lt made = cc
allocate-Holds size no_pool i a lt made = cc
allocate-Holds size no_buffer i a lt made = cc

init_buffer-Holds :
    (size_limit : ℕ) (answer : Allocation) (i : ℕ) (a : App)
    → i < length a.bufs
    → (init_buffer size_limit answer i a).0 ≡ true
    → (size_refused size_limit a ≡ false)
      × Holds answer (byte_size size_limit a) i a (init_buffer size_limit answer i a).1
unfolding init_buffer
init_buffer-Holds size_limit answer i a lt made = elim (Bool-cases (size_refused size_limit a)) [
  | inl refused ↦ absurd (false≢true (rw refused at made))
  | inr fine ↦
      rw fine (refl, allocate-Holds (byte_size size_limit a) answer i a lt (rw fine at made))
]

mod-same : (n : ℕ) → n < 2 ^ 64 → n % 2 ^ 64 ≡ n
mod-same n h = omega (arith, h)

mod-wraps : (n : ℕ) → 2 ^ 32 ≤ n → n < 2 ^ 33 → n % 2 ^ 32 ≡ n - 2 ^ 32
mod-wraps n h l = omega (arith, h, l)

product-le : (a b h : ℕ) → a ≤ b → a * h ≤ b * h
product-le a b h le = grind arith

-- The widths that the first test lets through leave no room for 2 ^ 64 bytes.
area-bound : (w h : ℕ) → w ≤ 536870911 → h ≤ 2147483647 → w * 4 * h < 2 ^ 64
area-bound w h lw lh = omega (arith, product-le (w * 4) 2147483644 h (omega (arith, lw)), lh)

refused-bounds :
    (size_limit : ℕ) (a : App)
    → size_refused size_limit a ≡ false
    → (pos_part a.width ≤ 536870911) × (byte_size size_limit a ≤ int32_max)
refused-bounds size_limit a f = (ground (arith, f), ground (arith, f))

-- What `mmap` does: a mapping of `bytes` bytes has a number for every four of them.
abbrev pub IsWhole : Allocation → Type 0
IsWhole answer = (n : ℕ) → length (memory_of answer (n * 4)) ≡ n

length-pixels_of :
    (b : ShmBuf) (answer : Allocation) (size n : ℕ)
    → IsWhole answer
    → b.pixels ≡ some (memory_of answer size)
    → size ≡ n * 4
    → length (pixels_of b) ≡ n
length-pixels_of b answer size n whole e f = rw (e, f) (whole n)

area-pixels : (w h : ℕ) → w * 4 * h ≡ w * h * 4
area-pixels w h = grind arith

-- With a `size_t` of 64 bits, the buffer that `init_buffer` accepts in one of the slots, for a window
-- whose height is an `int32_t`, is free and of the window's size; its file, its mapping and its pool
-- have 4 bytes for each pixel, INT32_MAX bytes at most; and the mapping has a number for each pixel,
-- since `mmap` gives one for every four bytes.
pub init_buffer-whole :
    (answer : Allocation) (i : ℕ) (a : App)
    → IsWhole answer
    → i < length a.bufs
    → pos_part a.height ≤ int32_max
    → (init_buffer (2 ^ 64) answer i a).0 ≡ true
    → (h : Holds answer (area a) i a (init_buffer (2 ^ 64) answer i a).1) × (area a ≤ int32_max)
      × (length (pixels_of h.made) ≡ pos_part a.width * pos_part a.height)
init_buffer-whole answer i a whole lt high made =
    let (fine, r) = init_buffer-Holds (2 ^ 64) answer i a lt made in
    let (narrow, small) = refused-bounds (2 ^ 64) a fine in
    let same = mod-same (area a) (area-bound (pos_part a.width) (pos_part a.height) narrow high) in
    let h = subst (λ n. Holds answer n i a (init_buffer (2 ^ 64) answer i a).1) same r in
    (
      h,
      omega (arith, small, same),
      length-pixels_of h.made answer (area a) (pos_part a.width * pos_part a.height) whole h.filled
          (area-pixels (pos_part a.width) (pos_part a.height)),
    )

-- With a `size_t` of 32 bits, the buffer that `init_buffer` accepts in one of the slots, for a window
-- of 2 ^ 32 bytes or more and less than 2 ^ 33, has the window's size, but its file, its mapping and
-- its pool have 2 ^ 32 bytes less than it needs; since `mmap` gives a number for every four bytes, the
-- mapping lacks those of 2 ^ 30 pixels.
pub init_buffer-wraps :
    (answer : Allocation) (i : ℕ) (a : App)
    → IsWhole answer
    → i < length a.bufs
    → 2 ^ 32 ≤ area a
    → area a < 2 ^ 33
    → (init_buffer (2 ^ 32) answer i a).0 ≡ true
    → (h : Holds answer (area a - 2 ^ 32) i a (init_buffer (2 ^ 32) answer i a).1) × (length
            (pixels_of h.made)
          + 2 ^ 30
        ≡ pos_part a.width * pos_part a.height)
init_buffer-wraps answer i a whole lt large less made =
    let (fine, r) = init_buffer-Holds (2 ^ 32) answer i a lt made in
    let same = mod-wraps (area a) large less in
    let h = subst (λ n. Holds answer n i a (init_buffer (2 ^ 32) answer i a).1) same r in
    let pixels = pos_part a.width * pos_part a.height in
    let needed = area-pixels (pos_part a.width) (pos_part a.height) in
    (
      h,
      omega (
        arith,
        large,
        needed,
        length-pixels_of h.made answer (area a - 2 ^ 32) (pixels - 2 ^ 30) whole h.filled
            (omega (arith, large, needed)),
      ),
    )

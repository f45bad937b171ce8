-- ===== src/Rect/Pool.antt =====
-- The accounts of the buffer pool: files, mappings and buffers, and what each slot holds.
use webos_wayland.Base.{
  ℕ, zero, suc, ◌+◌, ◌*◌, ◌%◌, ◌≡◌, refl, ◌∙◌, ap, pos_part, true, false, none, some, List, [],
  ◌++◌, if◌then◌else◌, ◌==◌, is_some, length, get_elem?, set, total, total-set, total-append,
  append-nil, length-set, All, All-set, All-get_elem?, arith, Option-cases, inl, inr,
}
use webos_wayland.Wayland.{Proxy}
use webos_wayland.Rect.{
  ShmBuf, num_bufs, Effect, open_file, close_file, map_memory, unmap_memory, create_buffer,
  destroy_buffer, App,
}
use webos_wayland.Rect.Buffers.{blank, clear_buffer, destroy_from, buffer_release, teardown}

abbrev pub opened : Effect → ℕ
opened open_file = 1
opened _ = 0

abbrev pub closed : Effect → ℕ
closed close_file = 1
closed _ = 0

-- 1 for a mapping of so many bytes
abbrev pub mapped : ℕ → Effect → ℕ
mapped bytes (map_memory n) = if n == bytes then 1 else 0
mapped bytes _ = 0

abbrev pub unmapped : ℕ → Effect → ℕ
unmapped bytes (unmap_memory n) = if n == bytes then 1 else 0
unmapped bytes _ = 0

abbrev pub is_proxy : ℕ → Proxy → ℕ
is_proxy id p = if p.id == id then 1 else 0

abbrev pub created : ℕ → Effect → ℕ
created id (create_buffer p width height stride) = is_proxy id p
created id _ = 0

abbrev pub destroyed : ℕ → Effect → ℕ
destroyed id (destroy_buffer p) = is_proxy id p
destroyed id _ = 0

-- 1 for a slot that has a mapping of so many bytes
abbrev pub has_pixels : ℕ → ShmBuf → ℕ
has_pixels bytes b = elim b.pixels [ none ↦ 0 | some p ↦ if b.size == bytes then 1 else 0 ]

abbrev pub holds : ℕ → ShmBuf → ℕ
holds id b = elim b.wlbuf [ none ↦ 0 | some p ↦ is_proxy id p ]

-- A slot has a buffer and pixels together, an empty one is not busy, and the size is that of the
-- pixels.
pub record SlotOk (size_limit : ℕ) (b : ShmBuf) : Type 0 where
  pub paired : is_some b.wlbuf ≡ is_some b.pixels
  pub idle : is_some b.wlbuf ≡ false → b.busy ≡ false
  pub sized :
      is_some b.wlbuf ≡ true → b.size ≡ pos_part b.width * 4 * pos_part b.height % size_limit

pub blank-SlotOk : (size_limit : ℕ) → SlotOk size_limit blank
blank-SlotOk size_limit = ground arith

-- Every file is closed again, and what is mapped with `id` bytes, and the buffer `id`, are given up as
-- often as they were made or stand in a slot. (The two uses of the number have nothing to do with each
-- other.)
pub record IsPool (size_limit id : ℕ) (a : App) : Type 0 where
  pub slots : length a.bufs ≡ num_bufs
  pub each : All (SlotOk size_limit) a.bufs
  pub files : total opened a.done ≡ total closed a.done
  pub memory : total (mapped id) a.done ≡ total (unmapped id) a.done + total (has_pixels id) a.bufs
  pub buffers : total (created id) a.done ≡ total (destroyed id) a.done + total (holds id) a.bufs

-- Effects that open, map or create as much as they close, unmap or destroy.
pub record IsEven (id : ℕ) (es : List Effect) : Type 0 where
  pub files : total opened es ≡ total closed es
  pub memory : total (mapped id) es ≡ total (unmapped id) es
  pub buffers : total (created id) es ≡ total (destroyed id) es

module _ (size_limit id : ℕ) where
  pub put-IsPool :
      (a a' : App) (i : ℕ) (b b' : ShmBuf) (es : List Effect)
      → IsPool size_limit id a
      → get_elem? a.bufs i ≡ some b
      → SlotOk size_limit b'
      → a'.bufs ≡ set a.bufs i b'
      → a'.done ≡ a.done ++ es
      → total opened es ≡ total closed es
      → total (mapped id) es + has_pixels id b ≡ total (unmapped id) es + has_pixels id b'
      → total (created id) es + holds id b ≡ total (destroyed id) es + holds id b'
      → IsPool size_limit id a'
  put-IsPool a a' i b b' es v at ok e f files memory buffers = record {
    slots = ap length e ∙ length-set a.bufs i b' ∙ v.slots;
    each = rw e (All-set (SlotOk size_limit) a.bufs i b' v.each ok);
    files = omega (
      arith,
      ap (total opened) f,
      ap (total closed) f,
      total-append opened a.done es,
      total-append closed a.done es,
      v.files,
      files,
    );
    memory = omega (
      arith,
      ap (total (mapped id)) f,
      ap (total (unmapped id)) f,
      total-append (mapped id) a.done es,
      total-append (unmapped id) a.done es,
      ap (total (has_pixels id)) e,
      total-set (has_pixels id) a.bufs i b b' at,
      v.memory,
      memory,
    );
    buffers = omega (
      arith,
      ap (total (created id)) f,
      ap (total (destroyed id)) f,
      total-append (created id) a.done es,
      total-append (destroyed id) a.done es,
      ap (total (holds id)) e,
      total-set (holds id) a.bufs i b b' at,
      v.buffers,
      buffers,
    );
  }

  pub emit-IsPool :
      (a a' : App) (es : List Effect)
      → IsPool size_limit id a
      → a'.bufs ≡ a.bufs
      → a'.done ≡ a.done ++ es
      → IsEven id es
      → IsPool size_limit id a'
  emit-IsPool a a' es v e f even = record {
    slots = ap length e ∙ v.slots;
    each = rw e v.each;
    files = omega (
      arith,
      ap (total opened) f,
      ap (total closed) f,
      total-append opened a.done es,
      total-append closed a.done es,
      v.files,
      even.files,
    );
    memory = omega (
      arith,
      ap (total (mapped id)) f,
      ap (total (unmapped id)) f,
      total-append (mapped id) a.done es,
      total-append (unmapped id) a.done es,
      ap (total (has_pixels id)) e,
      v.memory,
      even.memory,
    );
    buffers = omega (
      arith,
      ap (total (created id)) f,
      ap (total (destroyed id)) f,
      total-append (created id) a.done es,
      total-append (destroyed id) a.done es,
      ap (total (holds id)) e,
      v.buffers,
      even.buffers,
    );
  }

  pub slot-SlotOk :
      {a : App} (i : ℕ) {b : ShmBuf}
      → IsPool size_limit id a
      → get_elem? a.bufs i ≡ some b
      → SlotOk size_limit b
  slot-SlotOk {a} i v at = All-get_elem? (SlotOk size_limit) a.bufs i v.each at

  pub clear_buffer-IsPool :
      (i : ℕ) (a : App) → IsPool size_limit id a → IsPool size_limit id (clear_buffer i a)
  unfolding clear_buffer
  clear_buffer-IsPool i a v = elim (Option-cases (get_elem? a.bufs i)) [
    | inl e ↦ rw (e, clear_buffer) v
    | inr (b, e) ↦
        put-IsPool a (clear_buffer i a) i b blank (teardown b) v e (blank-SlotOk size_limit)
          (ground arith) (ground arith) (ground arith) (ground arith) (ground arith)
  ]

  pub destroy_from-IsPool :
      (n i : ℕ) (a : App) → IsPool size_limit id a → IsPool size_limit id (destroy_from n i a)
  unfolding destroy_from
  destroy_from-IsPool zero i a v = v
  destroy_from-IsPool (suc n) i a v =
      destroy_from-IsPool n (suc i) (clear_buffer i a) (clear_buffer-IsPool i a v)

  pub buffer_release-IsPool :
      (i : ℕ) (a : App) → IsPool size_limit id a → IsPool size_limit id (buffer_release i a)
  unfolding buffer_release
  buffer_release-IsPool i a v = elim (Option-cases (get_elem? a.bufs i)) [
    | inl e ↦ rw (e, buffer_release) v
    | inr (b, e) ↦
        put-IsPool a (buffer_release i a) i b (record b { busy = false }) [] v e
          (ground (arith, slot-SlotOk i v e)) (ground arith) (ground (arith, append-nil a.done))
          refl refl refl
  ]

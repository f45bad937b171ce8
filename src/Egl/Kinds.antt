-- ===== src/Egl/Kinds.antt =====
-- The accounts of what EGL, OpenGL ES and libwayland make for the renderer, kind by kind.
use webos_wayland.Base.{
  ℕ, ◌+◌, ◌≡◌, refl, ap, Option, none, some, List, ◌++◌, if◌then◌else◌, ◌==◌, total, total-append,
  arith,
}
use webos_wayland.Wayland.{Proxy}
use webos_wayland.Egl.{
  Floats, Effect, App, create_shader, delete_shader, create_program, delete_program, make_buffer,
  delete_buffer, create_window, destroy_window, create_context, destroy_context, create_surface,
  destroy_surface, request_frame, destroy_callback,
}
use webos_wayland.Egl.Keeps.{IsSizing, no_sizing, resizes, views, covers, Keeps, core}

pub data Kind : Type 0 where
  windows : Kind
  contexts : Kind
  surfaces : Kind
  programs : Kind
  buffers : Kind
  shaders : Kind
  callbacks : Kind

abbrev pub is_id : ℕ → ℕ → ℕ
is_id id n = if n == id then 1 else 0

-- OpenGL names nothing 0.
abbrev pub is_name : ℕ → ℕ → ℕ
is_name id n = if n == 0 then 0 else is_id id n

abbrev pub is_proxy : ℕ → Option Proxy → ℕ
is_proxy id none = 0
is_proxy id (some p) = is_id id p.id

abbrev pub is_handle : ℕ → Option ℕ → ℕ
is_handle id none = 0
is_handle id (some n) = is_id id n

module _ (float double : Floats) where
  -- 1 for an effect that made `id` of a kind
  abbrev pub made : Kind → ℕ → Effect float → ℕ
  made k id e = elim e [
    | create_window p ↦ elim k [ windows ↦ is_proxy id (some p) | _ ↦ 0 ]
    | create_context n ↦ elim k [ contexts ↦ is_id id n | _ ↦ 0 ]
    | create_surface n ↦ elim k [ surfaces ↦ is_id id n | _ ↦ 0 ]
    | create_program n ↦ elim k [ programs ↦ is_name id n | _ ↦ 0 ]
    | make_buffer n ↦ elim k [ buffers ↦ is_name id n | _ ↦ 0 ]
    | create_shader n ↦ elim k [ shaders ↦ is_name id n | _ ↦ 0 ]
    | request_frame cb ↦ elim k [ callbacks ↦ is_proxy id cb | _ ↦ 0 ]
    | _ ↦ 0
  ]

  -- 1 for an effect that gave `id` of a kind up
  abbrev pub given_up : Kind → ℕ → Effect float → ℕ
  given_up k id e = elim e [
    | destroy_window p ↦ elim k [ windows ↦ is_proxy id (some p) | _ ↦ 0 ]
    | destroy_context n ↦ elim k [ contexts ↦ is_id id n | _ ↦ 0 ]
    | destroy_surface n ↦ elim k [ surfaces ↦ is_id id n | _ ↦ 0 ]
    | delete_program n ↦ elim k [ programs ↦ is_name id n | _ ↦ 0 ]
    | delete_buffer n ↦ elim k [ buffers ↦ is_name id n | _ ↦ 0 ]
    | delete_shader n ↦ elim k [ shaders ↦ is_name id n | _ ↦ 0 ]
    | destroy_callback p ↦ elim k [ callbacks ↦ is_proxy id (some p) | _ ↦ 0 ]
    | _ ↦ 0
  ]

  -- whether the app holds `id` of a kind; the program deletes its shaders at once
  abbrev pub held : Kind → ℕ → App float double → ℕ
  held k id a = elim k [
    | windows ↦ is_proxy id a.egl_window
    | contexts ↦ is_handle id a.egl_context
    | surfaces ↦ is_handle id a.egl_surface
    | programs ↦ is_name id a.program
    | buffers ↦ is_name id a.vbo
    | shaders ↦ 0
    | callbacks ↦ is_proxy id a.frame_cb
  ]

  -- Each was made as often as it was given up or is still held.
  abbrev pub IsBalanced : Kind → ℕ → App float double → Type 0
  IsBalanced k id a = total (made k id) a.done ≡ total (given_up k id) a.done + held k id a

  -- The effects `es` of a step from `a` to `a'` account for what it holds.
  abbrev pub IsEven : Kind → ℕ → App float double → App float double → List (Effect float) → Type 0
  IsEven k id a a' es = total (made k id) es + held k id a ≡ total (given_up k id) es + held k id a'

  pub step-IsBalanced :
      (k : Kind) (id : ℕ) (a a' : App float double) (es : List (Effect float))
      → a'.done ≡ a.done ++ es
      → IsEven k id a a' es
      → IsBalanced k id a
      → IsBalanced k id a'
  step-IsBalanced k id a a' es d e b = omega (
    arith,
    b,
    e,
    ap (total (made k id)) d,
    ap (total (given_up k id)) d,
    total-append (made k id) a.done es,
    total-append (given_up k id) a.done es,
  )

  -- A size makes nothing and gives nothing up.
  sizing-even :
      (k : Kind) (id : ℕ) {es : List (Effect float)}
      → IsSizing float double es
      → total (made k id) es ≡ total (given_up k id) es
  sizing-even k id no_sizing = refl
  sizing-even k id (resizes p) = omega (arith, sizing-even k id p)
  sizing-even k id (views p) = omega (arith, sizing-even k id p)
  sizing-even k id (covers p) = omega (arith, sizing-even k id p)

  -- What an app holds is in its core.
  pub held-core :
      (k : Kind) (id : ℕ) (a a' : App float double)
      → core float double a' ≡ core float double a
      → held k id a' ≡ held k id a
  held-core windows id a a' e = ap (λ c. is_proxy id c.window) e
  held-core contexts id a a' e = ap (λ c. is_handle id c.context) e
  held-core surfaces id a a' e = ap (λ c. is_handle id c.surface) e
  held-core programs id a a' e = ap (λ c. is_name id c.program) e
  held-core buffers id a a' e = ap (λ c. is_name id c.vbo) e
  held-core shaders id a a' e = refl
  held-core callbacks id a a' e = ap (λ c. is_proxy id c.waits) e

  pub Keeps-IsBalanced :
      (k : Kind) (id : ℕ) (a a' : App float double)
      → Keeps float double a a'
      → IsBalanced k id a
      → IsBalanced k id a'
  Keeps-IsBalanced k id a a' keeps b =
      let (es, p, d) = keeps.asked in
      step-IsBalanced k id a a' es d
        (omega (arith, sizing-even k id p, held-core k id a a' keeps.same)) b

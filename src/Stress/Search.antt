-- ===== src/Stress/Search.antt =====
-- Free slots of native/wayland_egl_stress.c, and the search for the oldest query.
use webos_wayland.Base.{
  ℕ, ◌≤◌, ◌&&◌, Bool-cases, ◌+◌, ◌≡◌, ◌<◌, subst, true, false, ◌⊎◌, Option, none, some, List, [],
  ◌∷◌, if◌then◌else◌, ltb, length, arith, is_some, inl, inr, if-intro, some-injective,
}
use webos_wayland.Egl.{Floats}
use webos_wayland.Stress.Timers.{
  Reply, Slot, Tally, poll_slot, poll_slots, take_slot, has_free, older, oldest_from,
}

module _ (double : Floats) where
  -- a slot of the list
  pub data Among (s : Slot double) : List (Slot double) → Type 0 where
    first : {ss : List (Slot double)} → Among s (s ∷ ss)
    later : {t : Slot double} {ss : List (Slot double)} → Among s ss → Among s (t ∷ ss)

  pub has_free-poll_slots :
      (warmup : double.F) (reply : ℕ → Reply) (ss : List (Slot double)) (t : Tally double)
      → has_free double ss ≡ true
      → has_free double (poll_slots double warmup reply ss t).0 ≡ true
  unfolding has_free poll_slots poll_slot
  has_free-poll_slots warmup reply [] t h = h
  has_free-poll_slots warmup reply (s ∷ ss) t h =
      ground (arith, has_free-poll_slots warmup reply ss (poll_slot double warmup reply s t).1)

  -- A slot whose result is available is free after a poll.
  pub has_free-available :
      (warmup : double.F) (reply : ℕ → Reply) (s : Slot double) (ss : List (Slot double))
      (t : Tally double)
      → Among s ss
      → (reply s.id).available ≡ true
      → has_free double (poll_slots double warmup reply ss t).0 ≡ true
  unfolding has_free poll_slots poll_slot
  has_free-available warmup reply s _ t (first {ss = ss}) h = ground arith
  has_free-available warmup reply s _ t (later {t = u} {ss = ss} m) h =
      ground (arith, has_free-available warmup reply s ss (poll_slot double warmup reply u t).1 m h)

  pub is_some-take_slot :
      (now : double.F) (sequence i : ℕ) (ss : List (Slot double))
      → has_free double ss ≡ true
      → is_some (take_slot double now sequence i ss) ≡ true
  unfolding has_free take_slot
  is_some-take_slot now sequence i [] h = ground arith
  is_some-take_slot now sequence i (s ∷ ss) h =
      ground (arith, is_some-take_slot now sequence (i + 1) ss)

  first-Among :
      {A : Type 0} (t : Slot double) (ss : List (Slot double)) (s : Slot double)
      → some t ≡ some s
      → A ⊎ Among s (t ∷ ss)
  first-Among t ss s e = inr (subst (λ u. Among u (t ∷ ss)) (some-injective _ _ e) first)

  best-Among :
      (t : Slot double) (ss : List (Slot double)) (best : Option (Slot double)) (s : Slot double)
      → (if t.active then older double t best else best) ≡ some s
      → (best ≡ some s) ⊎ Among s (t ∷ ss)
  best-Among t ss none s e =
      if-intro (λ (x : Option (Slot double)). x ≡ some s → (none ≡ some s) ⊎ Among s (t ∷ ss))
        t.active (first-Among t ss s) inl e
  best-Among t ss (some b) s e =
      if-intro (λ (x : Option (Slot double)). x ≡ some s → (some b ≡ some s) ⊎ Among s (t ∷ ss))
        t.active
        (if-intro (λ (x : Option (Slot double)). x ≡ some s → (some b ≡ some s) ⊎ Among s (t ∷ ss))
          (ltb t.sequence b.sequence) (first-Among t ss s) inl)
        inl e

  -- The search starts from nothing or from a slot, and ends at one of the list if it starts with nothing.
  oldest_from-Among :
      (ss : List (Slot double)) (best : Option (Slot double)) (s : Slot double)
      → oldest_from double best ss ≡ some s
      → (best ≡ some s) ⊎ Among s ss
  unfolding oldest_from
  oldest_from-Among [] best s e = inl e
  oldest_from-Among (t ∷ ss) best s e =
      elim (oldest_from-Among ss (if t.active then older double t best else best) s e) [
        | inr m ↦ inr (later m)
        | inl f ↦ best-Among t ss best s f
      ]

  pub Among-oldest :
      (ss : List (Slot double)) (s : Slot double) → oldest_from double none ss ≡ some s → Among s ss
  Among-oldest ss s e = elim (oldest_from-Among ss none s e) [ inl f ↦ ground arith | inr m ↦ m ]

  oldest_from-is_some :
      (ss : List (Slot double)) (best : Option (Slot double))
      → is_some best ≡ true
      → is_some (oldest_from double best ss) ≡ true
  unfolding oldest_from
  oldest_from-is_some [] best h = h
  oldest_from-is_some (s ∷ ss) none h = ground arith
  oldest_from-is_some (s ∷ ss) (some b) h =
      oldest_from-is_some ss (if s.active then older double s (some b) else some b) (ground arith)

  pub oldest_from-finds :
      (ss : List (Slot double))
      → has_free double ss ≡ false
      → 0 < length ss
      → is_some (oldest_from double none ss) ≡ true
  unfolding oldest_from has_free
  oldest_from-finds [] h ne = ground arith
  oldest_from-finds (s ∷ ss) h ne =
      oldest_from-is_some ss (if s.active then older double s none else none) (ground arith)

  -- Where no slot is free, each is active.
  Among-active :
      (t : Slot double) (ss : List (Slot double))
      → has_free double ss ≡ false
      → Among t ss
      → t.active ≡ true
  unfolding has_free
  Among-active t _ h (first {ss = ss}) = ground arith
  Among-active t _ h (later {t = u} {ss = ss} m) = Among-active t ss (ground arith) m

  -- The search never goes from a slot to one that began later.
  oldest_from-le :
      (ss : List (Slot double)) (b s : Slot double)
      → oldest_from double (some b) ss ≡ some s
      → s.sequence ≤ b.sequence
  unfolding oldest_from
  oldest_from-le [] b s e = rw (some-injective _ _ e) (omega arith)
  oldest_from-le (u ∷ ss) b s e = elim (Bool-cases (u.active && ltb u.sequence b.sequence)) [
    | inl h ↦ ground (arith, oldest_from-le ss u s (ground arith))
    | inr h ↦ oldest_from-le ss b s (ground arith)
  ]

  oldest_from-le_all :
      (s t : Slot double) (ss : List (Slot double)) (best : Option (Slot double))
      → oldest_from double best ss ≡ some s
      → Among t ss
      → t.active ≡ true
      → s.sequence ≤ t.sequence
  unfolding oldest_from
  oldest_from-le_all s t _ none e (first {ss = ss}) h = oldest_from-le ss t s (ground arith)
  oldest_from-le_all s t _ (some b) e (first {ss = ss}) h =
      elim (Bool-cases (ltb t.sequence b.sequence)) [
        | inl l ↦ oldest_from-le ss t s (ground arith)
        | inr l ↦ ground (arith, oldest_from-le ss b s (ground arith))
      ]
  oldest_from-le_all s t _ best e (later {t = u} {ss = ss} m) h =
      oldest_from-le_all s t ss (if u.active then older double u best else best) e m h

  -- What the search among active slots finds began no later than any of them.
  pub oldest_from-least :
      (ss : List (Slot double)) (s : Slot double)
      → has_free double ss ≡ false
      → oldest_from double none ss ≡ some s
      → (t : Slot double) → Among t ss
      → s.sequence ≤ t.sequence
  oldest_from-least ss s full e t m = oldest_from-le_all s t ss none e m (Among-active t ss full m)

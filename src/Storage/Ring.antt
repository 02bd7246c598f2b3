-- ===== src/Storage/Ring.antt =====
-- Slots used as a ring: indices go round at the number of slots.
use cpp_playground.Storage.Segments.{alive, filled, filled_room, filled-snoc}
use cpp_playground.Prelude.{
  ℕ, zero, suc, ◌+◌, ◌-◌, ◌≤◌, ◌<◌, Option, none, some, List, [], ◌∷◌, ◌++◌, length, set, get_or,
  ◌≡◌, refl, ap, ap₂, sym, ◌∙◌, arith, get_or-set_self, get_or-set_ne, ◌==◌, leb, if◌then◌else◌,
  ◌≢◌, replicate, append_assoc, length-map, replicate_snoc, get_or-append_middle, set-append_middle,
}
use mathlib.Core.List.{head-eq_of_cons-eq, tail-eq_of_cons-eq}
use cpp_playground.Storage.Lifetime.{Slots, construct_at, destroy_at, read_at}

module _ {ℓ} {T : Type ℓ} where
  -- The object in a slot, if one is alive there.
  abbrev pub slot : Slots T → ℕ → Option T
  slot s i = get_or s i none

  pub construct_at-slot :
      (s : Slots T) (i : ℕ) (x : T)
      → i < length s
      → slot s i ≡ none
      → construct_at s i x ≡ some (set s i (some x))
  unfolding construct_at
  construct_at-slot [] i x h e = absurd (omega arith)
  construct_at-slot (none ∷ s) zero x h e = refl
  construct_at-slot (some y ∷ s) zero x h e = absurd (cc e)
  construct_at-slot (none ∷ s) (suc i) x h e = rw (construct_at-slot s i x (omega arith) e)
  construct_at-slot (some y ∷ s) (suc i) x h e = rw (construct_at-slot s i x (omega arith) e)

  pub destroy_at-slot :
      (s : Slots T) (i : ℕ) {x : T} → slot s i ≡ some x → destroy_at s i ≡ some (set s i none)
  unfolding destroy_at
  destroy_at-slot [] i e = absurd (cc e)
  destroy_at-slot (none ∷ s) zero e = absurd (cc e)
  destroy_at-slot (some y ∷ s) zero e = refl
  destroy_at-slot (none ∷ s) (suc i) e = rw (destroy_at-slot s i e)
  destroy_at-slot (some y ∷ s) (suc i) e = rw (destroy_at-slot s i e)

  pub read_at-slot : (s : Slots T) (i : ℕ) → read_at s i ≡ slot s i
  unfolding read_at
  read_at-slot [] i = refl
  read_at-slot (y ∷ s) zero = refl
  read_at-slot (y ∷ s) (suc i) = read_at-slot s i

module _ (cap : ℕ) where
  -- The index behind `i`, and the one `k` further on, for `k` up to `cap`.
  abbrev pub next : ℕ → ℕ
  next i = if suc i == cap then 0 else suc i

  abbrev pub advance : ℕ → ℕ → ℕ
  advance h k = if leb cap (h + k) then h + k - cap else h + k

  pub next-lt : (h : ℕ) → h < cap → next h < cap
  next-lt h lt = ground arith

  pub advance-lt : (h k : ℕ) → h < cap → k ≤ cap → advance h k < cap
  advance-lt h k lt le = ground arith

  pub advance-zero : (h : ℕ) → h < cap → advance h 0 ≡ h
  advance-zero h lt = ground arith

  pub advance-next : (h k : ℕ) → h < cap → suc k ≤ cap → advance (next h) k ≡ advance h (suc k)
  advance-next h k lt le = ground arith

  pub next-advance : (h k : ℕ) → h < cap → suc k ≤ cap → next (advance h k) ≡ advance h (suc k)
  next-advance h k lt le = ground arith

  pub next-eq-advance : (h : ℕ) → h < cap → next h ≡ advance h 1
  next-eq-advance h lt = ground arith

  pub advance-ne' : (h k : ℕ) → h < cap → suc k < cap → advance h (suc k) ≢ h
  advance-ne' h k lt le = ground arith

  pub advance-back : (h c : ℕ) → h < cap → cap ≡ suc c → advance (next h) c ≡ h
  advance-back h c lt e = ground arith

  pub advance-ne : (h k : ℕ) → h < cap → suc k < cap → h ≢ advance h (suc k)
  advance-ne h k lt le = ground arith

module _ {ℓ} {T : Type ℓ} (cap : ℕ) where
  -- The contents of `n` slots from index `h` on.
  abbrev pub window : Slots T → ℕ → ℕ → Slots T
  window s h zero = []
  window s h (suc n) = slot s h ∷ window s (next cap h) n

  pub length-window : (s : Slots T) (h n : ℕ) → length (window s h n) ≡ n
  length-window s h zero = refl
  length-window s h (suc n) = ap suc (length-window s (next cap h) n)

  -- A write behind the window, all the way round.
  window-set_outside :
      (s : Slots T) (h d n : ℕ) (v : Option T)
      → h < cap
      → suc d + n ≤ cap
      → window (set s h v) (advance cap h (suc d)) n ≡ window s (advance cap h (suc d)) n
  window-set_outside s h d zero v lt le = refl
  window-set_outside s h d (suc n) v lt le =
      ap₂ ◌∷◌
        (get_or-set_ne s h (advance cap h (suc d)) v none (advance-ne cap h d lt (omega arith)))
        (rw (next-advance cap h (suc d) lt (omega arith))
          (window-set_outside s h (suc d) n v lt (omega arith)))

  -- A write within the window.
  pub window-set :
      (s : Slots T) (h k n : ℕ) (v : Option T)
      → length s ≡ cap
      → h < cap
      → k < n
      → n ≤ cap
      → window (set s (advance cap h k) v) h n ≡ set (window s h n) k v
  window-set s h k zero v size lt kn le = absurd (omega arith)
  window-set s h zero (suc n) v size lt kn le =
      ap (λ i. window (set s i v) h (suc n)) (advance-zero cap h lt)
      ∙ ap₂ ◌∷◌ (get_or-set_self s h v none (omega arith))
          (rw (next-eq-advance cap h lt) (window-set_outside s h 0 n v lt (omega arith)))
  window-set s h (suc k) (suc n) v size lt kn le =
      ap₂ ◌∷◌
        (get_or-set_ne s (advance cap h (suc k)) h v none (advance-ne' cap h k lt (omega arith)))
        (ap (λ i. window (set s i v) (next cap h) n) (sym (advance-next cap h k lt (omega arith)))
          ∙ window-set s (next cap h) k n v size (next-lt cap h lt) (omega arith) (omega arith))

  -- The window that is one slot longer.
  pub window-suc :
      (s : Slots T) (h n : ℕ)
      → h < cap
      → n < cap
      → window s h (suc n) ≡ window s h n ++ slot s (advance cap h n) ∷ []
  window-suc s h zero lt le = ap (λ i. slot s i ∷ []) (sym (advance-zero cap h lt))
  window-suc s h (suc n) lt le = ap (◌∷◌ (slot s h)) (
      rw (← advance-next cap h n lt (omega arith))
        (window-suc s (next cap h) n (next-lt cap h lt) (omega arith)))

  -- The window of all slots, moved on by one: its first slot comes last.
  pub window-rotate :
      (s : Slots T) (h : ℕ) {y : Option T} {rest : Slots T}
      → h < cap
      → window s h cap ≡ y ∷ rest
      → window s (next cap h) cap ≡ rest ++ y ∷ []
  window-rotate s h {y} {rest} lt e =
      let c = cap - 1 in
      let size : cap ≡ suc c = omega arith in
      let cut : slot s h ∷ window s (next cap h) c ≡ y ∷ rest = ap (window s h) (sym size) ∙ e in
      ap (window s (next cap h)) size
      ∙ window-suc s (next cap h) c (next-lt cap h lt) (omega arith)
      ∙ ap₂ (λ r i. r ++ slot s i ∷ []) (tail-eq_of_cons-eq cut) (advance-back cap h c lt size)
      ∙ ap (λ z. rest ++ z ∷ []) (head-eq_of_cons-eq cut)

  -- A slot in the window.
  pub window-slot :
      (s : Slots T) (h k n : ℕ)
      → h < cap
      → k < n
      → n ≤ cap
      → get_or (window s h n) k none ≡ slot s (advance cap h k)
  window-slot s h k zero lt kn le = absurd (omega arith)
  window-slot s h zero (suc n) lt kn le = ap (slot s) (sym (advance-zero cap h lt))
  window-slot s h (suc k) (suc n) lt kn le =
      rw (← advance-next cap h k lt (omega arith))
        (window-slot s (next cap h) k n (next-lt cap h lt) (omega arith) (omega arith))

  pub slot-replicate : (n i : ℕ) → slot {T = T} (replicate n none) i ≡ none
  slot-replicate zero i = refl
  slot-replicate (suc n) zero = refl
  slot-replicate (suc n) (suc i) = slot-replicate n i

  -- Slots without any object, seen from any index.
  pub window-replicate : (c h n : ℕ) → window (replicate c none) h n ≡ replicate n none
  window-replicate c h zero = refl
  window-replicate c h (suc n) = ap₂ ◌∷◌ (slot-replicate c h) (window-replicate c (next cap h) n)

  -- A full window: an object more behind those that are alive, and one less in front.
  pub set-filled :
      (xs : List T) (x : T)
      → length xs < cap
      → set (filled cap xs) (length xs) (some x) ≡ filled cap (xs ++ x ∷ [])
  set-filled xs x h =
      ap₂ (λ s n. set s n (some x)) (filled_room cap xs h) (sym (length-map some xs))
      ∙ set-append_middle (alive xs) none (replicate (cap - suc (length xs)) none) (some x)
      ∙ sym (filled-snoc cap xs x h)

  pub slot-filled : (xs : List T) → length xs < cap → slot (filled cap xs) (length xs) ≡ none
  slot-filled xs h =
      ap₂ slot (filled_room cap xs h) (sym (length-map some xs))
      ∙ get_or-append_middle (alive xs) none (replicate (cap - suc (length xs)) none) none

  pub filled_rest :
      (y : T) (ys : List T)
      → suc (length ys) ≤ cap
      → (alive ys ++ replicate (cap - suc (length ys)) none) ++ none ∷ [] ≡ filled cap ys
  filled_rest y ys h =
      let count : suc (cap - suc (length ys)) ≡ cap - length ys = omega arith in
      append_assoc (alive ys) (replicate (cap - suc (length ys)) none) (none ∷ [])
      ∙ ap (λ r. alive ys ++ r)
          (replicate_snoc (cap - suc (length ys)) none ∙ ap (λ n. replicate n none) count)

-- ===== src/ArcPointer/Threads/Sharing.antt =====
-- include/cpp_playground/arc_pointer.hpp: what the steps of the threads keep, and the copies.
use cpp_playground.Prelude.{
  refl, suc, none, some, inl, inr, Option, ℕ, ◌≡◌, eq→==, total, true, ◌+◌, arith, ◌<◌, ◌≤◌,
  word_mod, ◌⊎◌, false, object_at, ltb-cases, total-set, set, add64, ◌∙◌, ap,
}
use cpp_playground.ArcPointer.Threads.{
  Point, outside, destroying, deleting, Holder, Shared, can_use, move_to, touch, copy_by, objects,
}

abbrev pub held_by : Option Holder → ℕ
held_by none = 0
held_by (some t) = t.held

abbrev pub destroys : Point → ℕ
destroys outside = 0
destroys destroying = 1
destroys deleting = 0

abbrev pub deletes : Point → ℕ
deletes outside = 0
deletes destroying = 0
deletes deleting = 1

abbrev pub destroying_by : Option Holder → ℕ
destroying_by none = 0
destroying_by (some t) = destroys t.point

abbrev pub deleting_by : Option Holder → ℕ
deleting_by none = 0
deleting_by (some t) = deletes t.point

-- How often the object is destroyed, where the block is that far `n` times.
abbrev pub objects_after : Option ℕ → ℕ → ℕ
objects_after none n = 0
objects_after (some ptr) n = n

pub objects_after-suc :
    (ptr : Option ℕ) (n : ℕ) → objects_after ptr (suc n) ≡ objects_after ptr n + objects ptr
unfolding objects
objects_after-suc none n = refl
objects_after-suc (some ptr) n = omega arith

-- The counter is the number of pointers. While there are some, no thread is at the end of
-- `release_ref`; when there are none, one is, or has been.
pub record Sound (s : Shared) : Type 0 where
  pub counted : s.m_num_shared ≡ total held_by s.threads
  pub in_use :
      0 < total held_by s.threads
      → total destroying_by s.threads + total deleting_by s.threads + s.deleted ≡ 0
  pub released :
      total held_by s.threads ≡ 0
      → total destroying_by s.threads + total deleting_by s.threads + s.deleted ≡ 1
  pub logged : s.destroyed ≡ objects_after s.m_ptr (total deleting_by s.threads + s.deleted)

pub can_use_cases :
    (p : Point) (held : ℕ)
    → ((can_use p held ≡ true) × (p ≡ outside) × (0 < held)) ⊎ (can_use p held ≡ false)
unfolding can_use
can_use_cases outside held = elim (ltb-cases 0 held) [
  | inl (h, t) ↦ inl (t, refl, h)
  | inr (h, t) ↦ inr t
]
can_use_cases destroying held = inr refl
can_use_cases deleting held = inr refl

-- What a step does: it returns, keeps the invariant and adds at most one pointer.
abbrev pub Kept : Shared → Option Shared → Type 0
Kept s o =
    (s' : Shared) × (o ≡ some s')
    × Sound s'
    × (total held_by s'.threads ≤ total held_by s.threads + 1)
    × (s'.m_ptr ≡ s.m_ptr)

pub touch_lem : (s s' : Shared) → s.deleted ≡ 0 → touch s s' ≡ some s'
unfolding touch
touch_lem s s' e = rw (eq→== s.deleted 0 e) refl

pub copy_by-Kept :
    (s : Shared) (i : ℕ) (t : Holder)
    → total held_by s.threads + 1 < word_mod
    → Sound s
    → object_at s.threads i ≡ some t
    → Kept s (copy_by i t s)
unfolding copy_by move_to
copy_by-Kept s i t word sound e = elim (can_use_cases t.point t.held) [
  | inr no_use ↦ (s, rw no_use refl, sound, omega arith, refl)
  | inl (use_it, at, some_held) ↦
      let t' = record t { held = t.held + 1 } in
      let own = total-set held_by s.threads i t none e in
      let holds = total-set held_by s.threads i t (some t') e in
      let destroy = total-set destroying_by s.threads i t (some t') e in
      let delete = total-set deleting_by s.threads i t (some t') e in
      let s' = record s {
        threads = set s.threads i (some t');
        m_num_shared = add64 s.m_num_shared 1;
      } in
      (
        s',
        rw use_it (touch_lem s s' (omega (arith, sound.in_use (omega (arith, own, some_held))))),
        record {
          counted = omega (arith, sound.counted, holds, word);
          in_use =
              λ h. omega (arith, sound.in_use (omega (arith, own, some_held)), destroy, delete);
          released = λ h. absurd (omega (arith, h, holds, own));
          logged = sound.logged ∙ ap (objects_after s.m_ptr) (omega (arith, delete));
        },
        omega (arith, holds),
        refl,
      )
]

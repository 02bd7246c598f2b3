-- ===== src/ArcPointer/Threads/Releases.antt =====
-- include/cpp_playground/arc_pointer.hpp: what the steps of `release_ref` and the moves between threads
-- keep.
use cpp_playground.Prelude.{
  refl, suc, none, some, inl, inr, ℕ, ◌<◌, object_at, total, ◌≡◌, arith, ◌+◌, ◌≢◌, if◌then◌else◌,
  total-set, word_mod, ap, ltb-cases, sub64, ◌-◌, ◌==◌, ==-cases, set, get_or-set_ne, ◌≤◌, ◌∙◌, sym,
}
use cpp_playground.ArcPointer.Threads.{
  Point, outside, destroying, deleting, Holder, Shared, move_to, drop_by, objects, finish_by,
  give_by,
}
use cpp_playground.ArcPointer.Threads.Sharing.{
  Sound, Kept, destroys, deletes, destroying_by, held_by, can_use_cases, deleting_by, touch_lem,
  objects_after, objects_after-suc,
}

dropped_to :
    (s : Shared) (i : ℕ) (t : Holder) (p : Point) (count : ℕ)
    → Sound s
    → object_at s.threads i ≡ some t
    → t.point ≡ outside
    → 0 < t.held
    → count + 1 ≡ total held_by s.threads
    → destroys p ≡ (if count == 0 then 1 else 0)
    → deletes p ≡ 0
    → let s' = record s {
      threads = set s.threads i (some (record { held = t.held - 1; point = p }));
      m_num_shared = count;
    } in
      Sound s' × (total held_by s'.threads ≤ total held_by s.threads + 1)
dropped_to s i t p count sound e at some_held less last none_deleted =
    let t' : Holder = record { held = t.held - 1; point = p } in
    let holds = total-set held_by s.threads i t (some t') e in
    let destroy = total-set destroying_by s.threads i t (some t') e in
    let delete = total-set deleting_by s.threads i t (some t') e in
    let before = sound.in_use (omega (arith, less)) in
    let idle : destroys t.point ≡ 0 = ap destroys at in
    let idle' : deletes t.point ≡ 0 = ap deletes at in
    (
      record {
        counted = omega (arith, holds, less, some_held);
        in_use = λ h.
            let more : 0 < count = omega (arith, h, holds, less, some_held) in
            let kept : destroys p ≡ 0 = ground (arith, last, more) in
            omega (arith, before, destroy, delete, kept, none_deleted, idle, idle');
        released = λ h.
            let none_left : count ≡ 0 = omega (arith, h, holds, less, some_held) in
            let now : destroys p ≡ 1 = ground (arith, last, none_left) in
            omega (arith, before, destroy, delete, now, none_deleted, idle, idle');
        logged =
            sound.logged ∙ ap (objects_after s.m_ptr) (omega (arith, delete, none_deleted, idle'));
      },
      omega (arith, holds),
    )

pub drop_by-Kept :
    (s : Shared) (i : ℕ) (t : Holder)
    → total held_by s.threads + 1 < word_mod
    → Sound s
    → object_at s.threads i ≡ some t
    → Kept s (drop_by i t s)
unfolding drop_by move_to
drop_by-Kept s i t word sound e = elim (can_use_cases t.point t.held) [
  | inr no_use ↦ (s, rw no_use refl, sound, omega arith, refl)
  | inl (use_it, at, some_held) ↦
      let own = total-set held_by s.threads i t none e in
      let count = sub64 s.m_num_shared 1 in
      let less : count + 1 ≡ total held_by s.threads =
        omega (arith, sound.counted, own, some_held, word) in
      let there : s.deleted ≡ 0 = omega (arith, sound.in_use (omega (arith, own, some_held))) in
      elim (==-cases count 0) [
        | inl (last, b) ↦
            let t' : Holder = record { held = t.held - 1; point = destroying } in
            let s' = record s { threads = set s.threads i (some t'); m_num_shared = count } in
            let (kept, fewer) =
              dropped_to s i t destroying count sound e at some_held less (rw b refl) refl in
            (s', rw (use_it, b) (touch_lem s s' there), kept, fewer, refl)
        | inr (n, b) ↦
            let t' : Holder = record { held = t.held - 1; point = outside } in
            let s' = record s { threads = set s.threads i (some t'); m_num_shared = count } in
            let (kept, fewer) =
              dropped_to s i t outside count sound e at some_held less (rw b refl) refl in
            (s', rw (use_it, b) (touch_lem s s' there), kept, fewer, refl)
      ]
]

-- While a thread is at the end of `release_ref`, no thread has a pointer.
nobody_holds :
    (s : Shared)
    → 0 < total destroying_by s.threads + total deleting_by s.threads
    → Sound s
    → total held_by s.threads ≡ 0
nobody_holds s busy sound = elim (ltb-cases 0 (total held_by s.threads)) [
  | inl (h, b) ↦ absurd (omega (arith, sound.in_use h, busy))
  | inr (h, b) ↦ omega (arith, h)
]

pub finish_by-Kept :
    (s : Shared) (i : ℕ) (t : Holder) (p : Point)
    → Sound s
    → object_at s.threads i ≡ some t
    → t.point ≡ p
    → Kept s (finish_by i p t s)
unfolding finish_by move_to
finish_by-Kept s i t outside sound e at = (s, refl, sound, omega arith, refl)
finish_by-Kept s i t destroying sound e at =
    let t' = record t { point = deleting } in
    let holds = total-set held_by s.threads i t (some t') e in
    let destroy = total-set destroying_by s.threads i t (some t') e in
    let delete = total-set deleting_by s.threads i t (some t') e in
    let here : destroys t.point ≡ 1 = ap destroys at in
    let here' : deletes t.point ≡ 0 = ap deletes at in
    let own = total-set destroying_by s.threads i t none e in
    let over : total held_by s.threads ≡ 0 = nobody_holds s (omega (arith, own, here)) sound in
    let now = sound.released over in
    let s' = record s {
      threads = set s.threads i (some t');
      destroyed = s.destroyed + objects s.m_ptr;
    } in
    let grown : total deleting_by s'.threads + s'.deleted
        ≡ suc (total deleting_by s.threads + s.deleted) =
      omega (arith, delete, here') in
    (
      s',
      touch_lem s s' (omega (arith, now, own, here)),
      record {
        counted = omega (arith, sound.counted, holds);
        in_use = λ h. absurd (omega (arith, h, holds, over));
        released = λ h. omega (arith, now, destroy, delete, here, here');
        logged =
            ap (λ n. n + objects s.m_ptr) sound.logged
            ∙ sym (objects_after-suc s.m_ptr (total deleting_by s.threads + s.deleted))
            ∙ ap (objects_after s.m_ptr) (sym grown);
      },
      omega (arith, holds),
      refl,
    )
finish_by-Kept s i t deleting sound e at =
    let t' = record t { point = outside } in
    let holds = total-set held_by s.threads i t (some t') e in
    let destroy = total-set destroying_by s.threads i t (some t') e in
    let delete = total-set deleting_by s.threads i t (some t') e in
    let here : destroys t.point ≡ 0 = ap destroys at in
    let here' : deletes t.point ≡ 1 = ap deletes at in
    let own = total-set deleting_by s.threads i t none e in
    let over : total held_by s.threads ≡ 0 = nobody_holds s (omega (arith, own, here')) sound in
    let now = sound.released over in
    let s' = record s { threads = set s.threads i (some t'); deleted = s.deleted + 1 } in
    (
      s',
      touch_lem s s' (omega (arith, now, own, here')),
      record {
        counted = omega (arith, sound.counted, holds);
        in_use = λ h. absurd (omega (arith, h, holds, over));
        released = λ h. omega (arith, now, destroy, delete, here, here');
        logged = sound.logged ∙ ap (objects_after s.m_ptr) (omega (arith, delete, here'));
      },
      omega (arith, holds),
      refl,
    )

pub give_by-Kept :
    (s : Shared) (i j : ℕ) (t u : Holder)
    → Sound s
    → object_at s.threads i ≡ some t
    → object_at s.threads j ≡ some u
    → i ≢ j
    → Kept s (some (give_by i j t u s))
unfolding give_by move_to
give_by-Kept s i j t u sound e e' n = elim (can_use_cases t.point t.held) [
  | inr no_use ↦ (s, rw no_use refl, sound, omega arith, refl)
  | inl (use_it, at, some_held) ↦
      let t' = record t { held = t.held - 1 } in
      let u' = record u { held = u.held + 1 } in
      let ts = set s.threads i (some t') in
      let there : object_at ts j ≡ some u = get_or-set_ne s.threads i j (some t') none n ∙ e' in
      let holds = total-set held_by s.threads i t (some t') e in
      let destroy = total-set destroying_by s.threads i t (some t') e in
      let delete = total-set deleting_by s.threads i t (some t') e in
      let holds' = total-set held_by ts j u (some u') there in
      let destroy' = total-set destroying_by ts j u (some u') there in
      let delete' = total-set deleting_by ts j u (some u') there in
      let s' = record s { threads = set ts j (some u') } in
      let same : total held_by s'.threads ≡ total held_by s.threads =
        omega (arith, holds, holds', some_held) in
      let same_d : total destroying_by s'.threads ≡ total destroying_by s.threads =
        omega (arith, destroy, destroy') in
      let same_x : total deleting_by s'.threads ≡ total deleting_by s.threads =
        omega (arith, delete, delete') in
      (
        s',
        rw use_it refl,
        record {
          counted = sound.counted ∙ sym same;
          in_use = λ h. omega (arith, sound.in_use (omega (arith, h, same)), same_d, same_x);
          released = λ h. omega (arith, sound.released (omega (arith, h, same)), same_d, same_x);
          logged = sound.logged ∙ ap (λ n. objects_after s.m_ptr (n + s.deleted)) (sym same_x);
        },
        omega (arith, same),
        refl,
      )
]

-- ===== src/ArcPointer/Threads.antt =====
-- include/cpp_playground/arc_pointer.hpp: threads that share one control block, each with pointers of
-- its own. The counter is atomic; between the decrement of `release_ref` and what it does then,
-- other threads take steps.
pub mod Sharing
pub mod Releases
pub mod Release
mod Tests
use cpp_playground.Prelude.{
  [], ◌∷◌, refl, zero, suc, none, some, inl, inr, List, Option, ℕ, Bool, if◌then◌else◌, object_at,
  replicate, set, sub64, ◌+◌, add64, ltb, ◌-◌, ◌==◌, false,
}

-- Where a thread is in `release_ref`: outside, before the test of `m_ptr`, or before `delete this`.
pub data Point : Type 0 where
  outside destroying deleting : Point

-- `held` is the number of pointers of the thread that share the block.
pub record Holder : Type 0 where
  pub held : ℕ
  pub point : Point

-- `destroyed` and `deleted` count the calls of `destroy_object` and the deletions of the block.
pub record Shared : Type 0 where
  pub m_ptr : Option ℕ
  pub m_num_shared : ℕ
  pub destroyed : ℕ
  pub deleted : ℕ
  pub threads : List (Option Holder)

-- A thread copies a pointer of its own, hands one to another thread, destroys one, or goes on in
-- `release_ref`.
pub data Turn : Type 0 where
  copying dropping finishing : ℕ → Turn
  giving : ℕ → ℕ → Turn

-- The first thread has made the block, the others have no pointer yet.
pub start : Option ℕ → ℕ → Shared
start ptr others = record {
  m_ptr = ptr;
  m_num_shared = 1;
  destroyed = 0;
  deleted = 0;
  threads =
      some (record { held = 1; point = outside })
      ∷ replicate others (some (record { held = 0; point = outside }));
}

-- Whether a thread can use a pointer of its own.
pub can_use : Point → ℕ → Bool
can_use outside held = ltb 0 held
can_use destroying held = false
can_use deleting held = false

pub move_to : ℕ → Holder → Shared → Shared
move_to i t s = record s { threads = set s.threads i (some t) }

-- An access to the block; none where it is deleted.
pub touch : Shared → Shared → Option Shared
touch s s' = if s.deleted == 0 then some s' else none

-- `add_ref`
pub copy_by : ℕ → Holder → Shared → Option Shared
unfolding can_use move_to touch
copy_by i t s =
    let copied = record (move_to i (record t { held = t.held + 1 }) s) {
      m_num_shared = add64 s.m_num_shared 1;
    } in
    if can_use t.point t.held then touch s copied else some s

-- `--m_num_shared`, and the test of its result.
pub drop_by : ℕ → Holder → Shared → Option Shared
unfolding can_use move_to touch
drop_by i t s =
    let count = sub64 s.m_num_shared 1 in
    let next = if count == 0 then destroying else outside in
    let dropped = record (move_to i (record { held = t.held - 1; point = next }) s) {
      m_num_shared = count;
    } in
    if can_use t.point t.held then touch s dropped else some s

pub objects : Option ℕ → ℕ
objects none = 0
objects (some ptr) = 1

-- The rest of `release_ref`.
pub finish_by : ℕ → Point → Holder → Shared → Option Shared
unfolding move_to touch objects
finish_by i outside t s = some s
finish_by i destroying t s = touch s (record (move_to i (record t { point = deleting }) s) {
  destroyed = s.destroyed + objects s.m_ptr;
})
finish_by i deleting t s =
    touch s (record (move_to i (record t { point = outside }) s) { deleted = s.deleted + 1 })

-- A pointer moves from one thread to another: the block is not touched.
pub give_by : (i j : ℕ) → Holder → Holder → Shared → Shared
unfolding can_use move_to
give_by i j t u s =
    if can_use t.point t.held
    then move_to j (record u { held = u.held + 1 }) (move_to i (record t { held = t.held - 1 }) s)
    else s

pub step : Turn → Shared → Option Shared
unfolding copy_by drop_by finish_by give_by
step (copying i) s = elim (object_at s.threads i) [ none ↦ some s | some t ↦ copy_by i t s ]
step (dropping i) s = elim (object_at s.threads i) [ none ↦ some s | some t ↦ drop_by i t s ]
step (finishing i) s = elim (object_at s.threads i) [
  | none ↦ some s
  | some t ↦ finish_by i t.point t s
]
step (giving i j) s = elim (object_at s.threads i) [
  | none ↦ some s
  | some t ↦ elim (object_at s.threads j) [
    | none ↦ some s
    | some u ↦ some (if i == j then s else give_by i j t u s)
  ]
]

pub run : List Turn → Shared → Option Shared
unfolding step
run [] s = some s
run (t ∷ ts) s = elim (step t s) [ none ↦ none | some s' ↦ run ts s' ]

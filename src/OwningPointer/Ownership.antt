-- ===== src/OwningPointer/Ownership.antt =====
-- include/cpp_playground/memory/owning_pointer.hpp: each object that a pointer adopted has one owner,
-- or it was deleted, or `release` returned it.
use cpp_playground.OwningPointer.{
  OwningPointer, World, Command, constructing, moving, destroying, assigning_null, releasing,
  move_assigning, read_pointer, write_pointer, place_pointer, delete_object, construct,
  move_construct, end_pointer, destruct, assign_null, hand_over, release, perform,
}
use cpp_playground.Prelude.{
  [], ◌∷◌, refl, none, some, Option, ℕ, ◌≡◌, ap, object_at, returned, set, total, ◌++◌,
  >>=-returned, arith, ◌+◌, ◌∙◌, pure, total-set, total-snoc, List,
}

abbrev pub pointer_weight : (ℕ → ℕ) → Option ℕ → ℕ
pointer_weight v none = 0
pointer_weight v (some ptr) = v ptr

module _ {D : Type 0} where
  abbrev pub owned : (ℕ → ℕ) → Option (OwningPointer D) → ℕ
  owned v none = 0
  owned v (some p) = pointer_weight v p.m_ptr

  abbrev pub deletion : (ℕ → ℕ) → D × ℕ → ℕ
  deletion v (deleter, ptr) = v ptr

  -- The objects that are deleted, those that are released and those that have an owner.
  abbrev pub weight : (ℕ → ℕ) → World D → ℕ
  weight v s = total (deletion v) s.deleted + total v s.released + total (owned v) s.pointers

  abbrev pub adopted : (ℕ → ℕ) → Command D → ℕ
  adopted v (constructing ptr deleter) = pointer_weight v ptr
  adopted v (moving _) = 0
  adopted v (destroying _) = 0
  adopted v (assigning_null _) = 0
  adopted v (releasing _) = 0
  adopted v (move_assigning _ _) = 0

  abbrev pub Alive : World D → ℕ → Type 0
  Alive s i = (p : OwningPointer D) × (object_at s.pointers i ≡ some p)

  -- The objects that a call names are alive.
  abbrev pub Ready : World D → Command D → Type 0
  Ready s (constructing ptr deleter) = Unit {0}
  Ready s (moving other) = Alive s other
  Ready s (destroying this) = Alive s this
  Ready s (assigning_null this) = Alive s this
  Ready s (releasing this) = Alive s this
  Ready s (move_assigning this other) = Alive s this × Alive s other

  pub read :
      (s : World D) (i : ℕ) (p : OwningPointer D)
      → object_at s.pointers i ≡ some p
      → read_pointer i s ≡ returned p s
  unfolding read_pointer
  read s i p e = rw e refl

  pub write :
      (s : World D) (i : ℕ) (p q : OwningPointer D)
      → object_at s.pointers i ≡ some q
      → write_pointer i p s ≡ returned tt (record s { pointers = set s.pointers i (some p) })
  unfolding write_pointer
  write s i p q e = rw (e, write_pointer) refl

  -- What a deletion changes.
  abbrev pub log_of : D → Option ℕ → List (D × ℕ) → List (D × ℕ)
  log_of deleter none log = log
  log_of deleter (some ptr) log = (deleter, ptr) ∷ log

  abbrev pub logged : D → Option ℕ → World D → World D
  logged deleter ptr s = record s { deleted = log_of deleter ptr s.deleted }

  pub delete_object_lem :
      (deleter : D) (ptr : Option ℕ) (s : World D)
      → (delete_object deleter ptr s ≡ returned tt (logged deleter ptr s))
        × ((logged deleter ptr s).pointers ≡ s.pointers)
        × ((v : ℕ → ℕ) → weight v (logged deleter ptr s) ≡ pointer_weight v ptr + weight v s)
  unfolding delete_object
  delete_object_lem deleter none s = (refl, refl, λ v. omega arith)
  delete_object_lem deleter (some ptr) s = (refl, refl, λ v. omega arith)

  pub hand_over_lem :
      (ptr : Option ℕ) (s : World D)
      → (s' : World D) × (hand_over ptr s ≡ returned tt s')
        × (s'.pointers ≡ s.pointers)
        × ((v : ℕ → ℕ) → weight v s' ≡ pointer_weight v ptr + weight v s)
  unfolding hand_over
  hand_over_lem none s = (s, refl, refl, λ v. omega arith)
  hand_over_lem (some ptr) s =
      (record s { released = ptr ∷ s.released }, refl, refl, λ v. omega arith)

module _ {D : Type 0} (moved : D → D) where
  -- The final state of a call, in which nothing is lost and nothing is twice.
  abbrev pub Done : World D → Command D → Type 0
  Done s c =
      (s' : World D) × (perform moved c s ≡ returned tt s')
      × ((v : ℕ → ℕ) → weight v s' ≡ adopted v c + weight v s)

  pub constructing_lem :
      (s : World D) (ptr : Option ℕ) (deleter : D) → Done s (constructing ptr deleter)
  unfolding perform construct place_pointer
  constructing_lem s ptr deleter =
      let p : OwningPointer D = record { m_deleter = deleter; m_ptr = ptr } in
      (
        record s { pointers = s.pointers ++ some p ∷ [] },
        refl,
        λ v. omega (arith, total-snoc (owned v) s.pointers (some p)),
      )

  pub moving_lem : (s : World D) (other : ℕ) → Alive s other → Done s (moving other)
  unfolding perform move_construct place_pointer
  moving_lem s other (p, e) =
      let empty : OwningPointer D = record { m_deleter = moved p.m_deleter; m_ptr = none } in
      let left = set s.pointers other (some empty) in
      (
        record s { pointers = left ++ some p ∷ [] },
        >>=-returned (move_construct moved other) (λ _. pure tt)
            (>>=-returned (read_pointer other) _ (read s other p e)
              ∙ >>=-returned (write_pointer other empty) _ (write s other empty p e)),
        λ v. omega (
          arith,
          total-snoc (owned v) left (some p),
          total-set (owned v) s.pointers other p (some empty) e,
        ),
      )

  pub destroying_lem : (s : World D) (this : ℕ) → Alive s this → Done s (destroying this)
  unfolding perform destruct end_pointer
  destroying_lem s this (p, e) =
      let (ran, points, weighs) = delete_object_lem p.m_deleter p.m_ptr s in
      let s1 = logged p.m_deleter p.m_ptr s in
      let e1 = ap (λ ps. object_at ps this) points ∙ e in
      (
        record s1 { pointers = set s1.pointers this none },
        >>=-returned (read_pointer this) _ (read s this p e)
            ∙ >>=-returned (delete_object p.m_deleter p.m_ptr) _ ran,
        λ v. omega (arith, weighs v, total-set (owned v) s1.pointers this p none e1),
      )

  pub assigning_null_lem : (s : World D) (this : ℕ) → Alive s this → Done s (assigning_null this)
  unfolding perform assign_null
  assigning_null_lem s this (p, e) =
      let (ran, points, weighs) = delete_object_lem p.m_deleter p.m_ptr s in
      let s1 = logged p.m_deleter p.m_ptr s in
      let e1 = ap (λ ps. object_at ps this) points ∙ e in
      let p' : OwningPointer D = record p { m_ptr = none } in
      (
        record s1 { pointers = set s1.pointers this (some p') },
        >>=-returned (read_pointer this) _ (read s this p e)
            ∙ >>=-returned (delete_object p.m_deleter p.m_ptr) _ ran
            ∙ write s1 this p' p e1,
        λ v. omega (arith, weighs v, total-set (owned v) s1.pointers this p (some p') e1),
      )

  pub releasing_lem : (s : World D) (this : ℕ) → Alive s this → Done s (releasing this)
  unfolding perform release
  releasing_lem s this (p, e) =
      let p' : OwningPointer D = record p { m_ptr = none } in
      let s1 = record s { pointers = set s.pointers this (some p') } in
      let (s2, ran, points, weighs) = hand_over_lem p.m_ptr s1 in
      (
        s2,
        >>=-returned (release this) (λ _. pure tt)
            (>>=-returned (read_pointer this) _ (read s this p e)
              ∙ >>=-returned (write_pointer this p') _ (write s this p' p e)
              ∙ >>=-returned (hand_over p.m_ptr) _ ran),
        λ v. omega (arith, weighs v, total-set (owned v) s.pointers this p (some p') e),
      )

-- ===== src/LruCache/Recency.antt =====
-- `insert` and `get` against a bounded list of keys and values, most recently used first.
use cpp_playground.Prelude.{
  [], ◌∷◌, suc, ℕ, ◌<◌, List, length, take, ◌≡◌, arith, returned, refl, inl, >>=-returned, ◌∙◌, inr,
  ap, none, some, sym, take_of_length-le, All-map, ◌>>◌, take-cons, ap₂, eq→==, ◌≤◌, Option, ◌>>=◌,
  pure, ◌⊎◌, fault,
}
use cpp_playground.LruCache.{
  LruCache, ListEntry, find, emplace, shrink_to_fit, add_front, insert, get, front_value,
  write_value, promote_element, read_value, splice_front, value_at, unlink,
}
use cpp_playground.LruCache.Nodes.{
  pairs, node_of, Found, found, absent, recall, forget, new_entry-Apart, head?-pairs, length-pairs,
}
use cpp_playground.LruCache.Validity.{IsValid, IsCoherent, find-emplace}
use mathlib.Core.Logic.{ite}
use cpp_playground.LruCache.Shrink.{Returns, shrink_to_fit_lem}

some_or_none : (o : Option ℕ) → (o ≡ none) ⊎ ((n : ℕ) × (o ≡ some n))
some_or_none none = inl refl
some_or_none (some n) = inr (n, refl)

nil_of {ℓ} : {A : Type ℓ} (xs : List A) → length xs ≤ 0 → xs ≡ []
nil_of [] h = refl
nil_of (x ∷ xs) h = absurd (omega arith)

module _ {ℓ} {K T : Type ℓ} (dec : Discrete K) where
  front_value_lem :
      (c : LruCache K T) (k : K) (v : T) (r : List (K × T))
      → pairs c.m_elements ≡ (k, v) ∷ r
      → front_value c ≡ returned v c
  unfolding front_value
  front_value_lem c k v r h =
      let (e, there, same) = head?-pairs c.m_elements h in rw (there, front_value, same)

  -- The specification of `insert`.
  abbrev pub insert_pairs : ℕ → K → T → List (K × T) → List (K × T)
  insert_pairs cap k v r = take cap ((k, v) ∷ forget dec k r)

  insert_miss :
      (c : LruCache K T) (k : K) (v : T)
      → find dec k c.m_lookup ≡ none
      → insert dec k v c ≡ (do add_front dec k v; shrink_to_fit dec; front_value) c
  unfolding insert
  insert_miss c k v h = rw (h, insert)

  abbrev added : K → T → LruCache K T → LruCache K T
  added k v c = record c {
    m_elements = record { node = c.m_fresh; key = k; value = v } ∷ c.m_elements;
    m_lookup = emplace dec k c.m_fresh c.m_lookup;
    m_fresh = suc c.m_fresh;
  }

  added-IsCoherent :
      (c : LruCache K T) (k : K) (v : T)
      → IsValid dec c
      → find dec k c.m_lookup ≡ none
      → IsCoherent dec (added k v c)
  unfolding node_of
  added-IsCoherent c k v h miss = record {
    distinct = (
      new_entry-Apart dec c.m_fresh k v c.m_elements h.coherent.fresh
          (sym (h.coherent.agrees k) ∙ miss),
      h.coherent.distinct,
    );
    fresh = (omega arith, All-map (λ e. λ l. omega arith) c.m_elements h.coherent.fresh);
    agrees = λ q.
        find-emplace dec k q c.m_fresh c.m_lookup miss
        ∙ ap (ite (dec k q) (some c.m_fresh)) (h.coherent.agrees q);
  }

  -- A new key: the entry is added, the list is shrunk, and its front is read.
  insert_shrunk :
      (c d : LruCache K T) (k : K) (v : T)
      → find dec k c.m_lookup ≡ none
      → shrink_to_fit dec (added k v c) ≡ returned tt d
      → insert dec k v c ≡ front_value d
  unfolding add_front
  insert_shrunk c d k v miss e =
      insert_miss c k v miss
      ∙ >>=-returned (add_front dec k v) (λ _. shrink_to_fit dec >> front_value) {s = c} refl
      ∙ >>=-returned (shrink_to_fit dec) (λ _. front_value) e

  insert_new :
      (c : LruCache K T) (k : K) (v : T)
      → IsValid dec c
      → 0 < c.m_capacity
      → find dec k c.m_lookup ≡ none
      → Returns dec (insert dec k v) c v (insert_pairs c.m_capacity k v (pairs c.m_elements))
  unfolding Returns
  insert_new c k v h room miss =
      let es : List (ListEntry K T) = c.m_elements in
      let (r, f) = absent dec k es (sym (h.coherent.agrees k) ∙ miss) in
      let first = take-cons c.m_capacity (k, v) (pairs es) room in
      let (d, e, valid, same, p) =
        shrink_to_fit_lem dec (added k v c) (added-IsCoherent c k v h miss) in
      let p' : pairs d.m_elements ≡ insert_pairs c.m_capacity k v (pairs es) = rw (p, f) in
      (
        d,
        insert_shrunk c d k v miss e ∙ front_value_lem d k v first.0 (p ∙ first.1),
        valid,
        same,
        p',
      )

  -- On a valid cache of capacity 0, `insert` has undefined behaviour: it reads the front of an
  -- empty list.
  pub insert-no_room :
      (c : LruCache K T) (k : K) (v : T)
      → IsValid dec c
      → c.m_capacity ≡ 0
      → insert dec k v c ≡ fault
  unfolding Returns node_of front_value
  insert-no_room c k v h none_fit =
      let miss : find dec k c.m_lookup ≡ none =
        h.coherent.agrees k ∙ ap (node_of dec k) (nil_of c.m_elements (omega (arith, h.bounded))) in
      let (d, e, valid, same, p) =
        shrink_to_fit_lem dec (added k v c) (added-IsCoherent c k v h miss) in
      insert_shrunk c d k v miss e
      ∙ rw (nil_of d.m_elements (omega (arith, valid.bounded, same)), front_value)

  -- Moving a node to the front, and reading it there.
  promote_lem :
      (c : LruCache K T) (pos : ℕ) (e : ListEntry K T) (rest : List (ListEntry K T))
      → unlink pos c.m_elements ≡ some (e, rest)
      → e.node ≡ pos
      → (promote_element pos >> read_value pos) c
        ≡ returned e.value (record c { m_elements = e ∷ rest })
  unfolding promote_element read_value splice_front value_at
  promote_lem c pos e rest h here =
      let promoted : promote_element pos c ≡ returned tt (record c { m_elements = e ∷ rest }) =
        rw (h, promote_element, splice_front) in
      >>=-returned (promote_element pos) (λ _. read_value pos) promoted
      ∙ rw (eq→== e.node pos here, read_value, value_at)

  moved-IsValid :
      (c : LruCache K T) (k : K) (v : T) (pos : ℕ)
      → IsValid dec c
      → (f : Found dec pos k c.m_elements)
      → IsValid dec (record c { m_elements = record f.entry { value = v } ∷ f.rest })
  unfolding node_of
  moved-IsValid c k v pos h f = record {
    bounded = omega (arith, h.bounded, f.count);
    coherent = record {
      distinct = f.distinct;
      fresh = f.fresh c.m_fresh h.coherent.fresh;
      agrees = λ q. h.coherent.agrees q ∙ sym (f.same_nodes q);
    };
  }

  moved_pairs :
      (c : LruCache K T) (k : K) (v : T) (pos : ℕ) (f : Found dec pos k c.m_elements)
      → (f.entry.key, v) ∷ pairs f.rest ≡ (k, v) ∷ forget dec k (pairs c.m_elements)
  moved_pairs c k v pos f = ap₂ (λ (j : K) (r : List (K × T)). (j, v) ∷ r) f.names f.forgotten

  insert_there :
      (c : LruCache K T) (k : K) (v : T) (pos : ℕ)
      → IsValid dec c
      → find dec k c.m_lookup ≡ some pos
      → Found dec pos k c.m_elements
      → Returns dec (insert dec k v) c v (insert_pairs c.m_capacity k v (pairs c.m_elements))
  unfolding insert Returns write_value
  insert_there c k v pos h there f =
      let (es', a, u) = f.assigned v in
      let c₁ : LruCache K T = record c { m_elements = es' } in
      let written : write_value pos v c ≡ returned tt c₁ = rw (a, write_value) in
      let short : length ((f.entry.key, v) ∷ pairs f.rest) ≤ c.m_capacity =
        omega (arith, h.bounded, f.count, length-pairs f.rest) in
      let hit : insert dec k v c
          ≡ (write_value pos v >> (promote_element pos >> read_value pos)) c =
        rw (there, insert) in
      (
        record c { m_elements = record f.entry { value = v } ∷ f.rest },
        hit
            ∙ >>=-returned (write_value pos v) (λ _. promote_element pos >> read_value pos) written
            ∙ promote_lem c₁ pos (record f.entry { value = v }) f.rest u f.here,
        moved-IsValid c k v pos h f,
        refl,
        sym (take_of_length-le c.m_capacity ((f.entry.key, v) ∷ pairs f.rest) short)
            ∙ ap (take c.m_capacity) (moved_pairs c k v pos f),
      )

  -- The specification of `get`.
  abbrev pub get_pairs : K → List (K × T) → List (K × T)
  get_pairs k r = elim (recall dec k r) [ none ↦ r | some v ↦ (k, v) ∷ forget dec k r ]

  get_there :
      (c : LruCache K T) (k : K) (pos : ℕ)
      → IsValid dec c
      → find dec k c.m_lookup ≡ some pos
      → Found dec pos k c.m_elements
      → Returns dec
          (get dec k)
          c
          (recall dec k (pairs c.m_elements))
          (get_pairs k (pairs c.m_elements))
  unfolding get Returns promote_element read_value splice_front value_at
  get_there c k pos h there f =
      let c' : LruCache K T = record c { m_elements = f.entry ∷ f.rest } in
      let promoted : promote_element pos c ≡ returned tt c' =
        rw (f.unlinked, promote_element, splice_front) in
      let read : read_value pos c' ≡ returned f.entry.value c' =
        rw (eq→== f.entry.node pos f.here, read_value, value_at) in
      (
        c',
        rw (there, get, f.recalled)
            (>>=-returned (promote_element pos) (λ _. read_value pos >>= λ v. pure (some v))
                promoted
              ∙ >>=-returned (read_value pos) (λ v. pure (some v)) {s = c'} read),
        moved-IsValid c k f.entry.value pos h f,
        refl,
        rw (f.recalled, get_pairs) (moved_pairs c k f.entry.value pos f),
      )

  -- On a valid cache, `get` returns the value of the key, or nothing if it is absent, keeps the
  -- cache valid and its capacity, and moves the pair that it finds to the front.
  pub get_lem :
      (c : LruCache K T) (k : K)
      → IsValid dec c
      → Returns dec
          (get dec k)
          c
          (recall dec k (pairs c.m_elements))
          (get_pairs k (pairs c.m_elements))
  unfolding get Returns
  get_lem c k h = elim (some_or_none (find dec k c.m_lookup)) [
    | inl miss ↦
        let (r, f) = absent dec k c.m_elements (sym (h.coherent.agrees k) ∙ miss) in
        (c, rw (miss, get, r), h, refl, rw (r, get_pairs))
    | inr (pos, there) ↦
        get_there c k pos h there
          (found dec pos k c.m_elements h.coherent.distinct (sym (h.coherent.agrees k) ∙ there))
  ]

  -- On a valid cache with room for an element, `insert` returns the value, keeps the cache valid
  -- and its capacity, and puts the pair in front of the others, less any pair with the key, cut to
  -- the capacity.
  pub insert_lem :
      (c : LruCache K T) (k : K) (v : T)
      → IsValid dec c
      → 0 < c.m_capacity
      → Returns dec (insert dec k v) c v (insert_pairs c.m_capacity k v (pairs c.m_elements))
  insert_lem c k v h room = elim (some_or_none (find dec k c.m_lookup)) [
    | inl miss ↦ insert_new c k v h room miss
    | inr (pos, there) ↦
        insert_there c k v pos h there
          (found dec pos k c.m_elements h.coherent.distinct (sym (h.coherent.agrees k) ∙ there))
  ]

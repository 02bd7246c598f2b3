-- ===== src/LruCache/Validity.antt =====
-- What holds of every cache between two calls of its operations, and how eviction keeps it.
use cpp_playground.Prelude.{
  List, length, ℕ, ◌≡◌, ◌≤◌, All, none, some, sym, ◌<◌, ◌≢◌, suc, take, ◌∷◌, ap, ◌∙◌, refl, arith,
}
use cpp_playground.Prelude.{[], ◌∷◌, suc}
use cpp_playground.LruCache.{LruCache, ListEntry, back_key, pop_back, find, erase, emplace}
use cpp_playground.LruCache.Nodes.{Apart, Distinct, pairs, node_of}
use mathlib.Core.Logic.{ite, if_pos, if_neg}

module _ {ℓ} {K : Type ℓ} (dec : Discrete K) where
  -- Erasing a key from the map hides it, and no other.
  pub find-erase :
      (j k : K) (m : List (K × ℕ)) → find dec k (erase dec j m) ≡ ite (dec j k) none (find dec k m)
  unfolding find erase
  find-erase j k [] = elim (dec j k) [
    | yes p ↦ sym (if_pos (dec j k) p _ _)
    | no p ↦ sym (if_neg (dec j k) p _ _)
  ]
  find-erase j k ((i, n) ∷ m) = elim (dec i j) [
    | yes p ↦ ap (find dec k) (if_pos (dec i j) p _ _) ∙ find-erase j k m ∙ elim (dec j k) [
      | yes q ↦ if_pos (dec j k) q _ _ ∙ sym (if_pos (dec j k) q _ _)
      | no q ↦ ap (λ o. ite (dec j k) none o) (sym (if_neg (dec i k) (λ r. q (sym p ∙ r)) _ _))
    ]
    | no p ↦ ap (find dec k) (if_neg (dec i j) p _ _) ∙ elim (dec i k) [
      | yes q ↦
          if_pos (dec i k) q _ _
          ∙ sym (if_pos (dec i k) q _ _)
          ∙ sym (if_neg (dec j k) (λ r. p (q ∙ sym r)) _ _)
      | no q ↦
          if_neg (dec i k) q _ _
          ∙ find-erase j k m
          ∙ ap (λ o. ite (dec j k) none o) (sym (if_neg (dec i k) q _ _))
    ]
  ]

  -- A key that is absent from the map is found once it is emplaced.
  pub find-emplace :
      (j k : K) (n : ℕ) (m : List (K × ℕ))
      → find dec j m ≡ none
      → find dec k (emplace dec j n m) ≡ ite (dec j k) (some n) (find dec k m)
  unfolding find emplace
  find-emplace j k n m h = rw (h, emplace, find)

module _ {ℓ} {K T : Type ℓ} (dec : Discrete K) where
  -- Keys and addresses are different, no node is at the next address, and the map finds the node
  -- of each key.
  pub record IsCoherent (c : LruCache K T) : Type ℓ where
    pub distinct : Distinct c.m_elements
    pub fresh : All (λ e. e.node < c.m_fresh) c.m_elements
    pub agrees : (k : K) → find dec k c.m_lookup ≡ node_of dec k c.m_elements

  -- Between two calls the list is within the capacity too.
  pub record IsValid (c : LruCache K T) : Type ℓ where
    pub bounded : length c.m_elements ≤ c.m_capacity
    pub coherent : IsCoherent c

  -- What removing the last entry of a list leaves.
  pub record Popped (es : List (ListEntry K T)) : Type ℓ where
    pub last : K
    pub named : back_key es ≡ some last
    pub nodes : (k : K) → node_of dec k (pop_back es) ≡ ite (dec last k) none (node_of dec k es)
    pub kept : (g : ListEntry K T) → All (Apart g) es → All (Apart g) (pop_back es)
    pub other : (g : ListEntry K T) → All (Apart g) es → g.key ≢ last
    pub fresh : (m : ℕ) → All (λ e. e.node < m) es → All (λ e. e.node < m) (pop_back es)
    pub distinct : Distinct (pop_back es)
    pub count : length es ≡ suc (length (pop_back es))
    pub prefix : pairs (pop_back es) ≡ take (length (pop_back es)) (pairs es)

  pub popped : (e : ListEntry K T) (es : List (ListEntry K T)) → Distinct (e ∷ es) → Popped (e ∷ es)
  unfolding back_key pop_back node_of
  popped e [] d = record {
    last = e.key;
    named = refl;
    nodes = λ k. elim (dec e.key k) [
      | yes p ↦ sym (if_pos (dec e.key k) p _ _)
      | no p ↦ sym (if_neg (dec e.key k) p _ _ ∙ if_neg (dec e.key k) p _ _)
    ];
    kept = λ g a. tt;
    other = λ g a p. a.0.1 (sym p);
    fresh = λ m a. tt;
    distinct = tt;
    count = refl;
    prefix = refl;
  }
  popped e (f ∷ es) d =
      let r = popped f es d.1 in
      record {
        last = r.last;
        named = r.named;
        nodes = λ k. elim (dec e.key k) [
          | yes p ↦
              if_pos (dec e.key k) p _ _
              ∙ sym (if_pos (dec e.key k) p _ _)
              ∙ sym (if_neg (dec r.last k) (λ q. r.other e d.0 (p ∙ sym q)) _ _)
          | no p ↦
              if_neg (dec e.key k) p _ _
              ∙ r.nodes k
              ∙ ap (λ o. ite (dec r.last k) none o) (sym (if_neg (dec e.key k) p _ _))
        ];
        kept = λ g a. (a.0, r.kept g a.1);
        other = λ g a. r.other g a.1;
        fresh = λ m a. (a.0, r.fresh m a.1);
        distinct = (r.kept e d.0, r.distinct);
        count = ap suc r.count;
        prefix = ap (◌∷◌ (e.key, e.value)) r.prefix;
      }

  pub popped_of : (es : List (ListEntry K T)) → 0 < length es → Distinct es → Popped es
  popped_of [] h d = absurd (omega arith)
  popped_of (e ∷ es) h d = popped e es d

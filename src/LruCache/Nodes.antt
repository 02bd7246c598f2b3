-- ===== src/LruCache/Nodes.antt =====
-- Finding a key's node by its address is finding its entry by the key, as long as the entries have
-- different addresses and different keys.
use cpp_playground.Prelude.{
  ℕ, suc, ◌<◌, ◌≡◌, ◌≢◌, refl, Option, none, some, List, [], ◌∷◌, map, All, arith, eq→==, length,
  ◌==◌, false, sym, ne→==, ◌∙◌, ap, head?, get_or,
}
use mathlib.Core.Option.{some-injective}
use mathlib.Core.Logic.{ite, if_pos, if_neg}
use cpp_playground.LruCache.{ListEntry, value_at, assign_value, unlink}

abbrev pub Apart {ℓ} : {K T : Type ℓ} → ListEntry K T → ListEntry K T → Type ℓ
Apart e f = (f.node ≢ e.node) × (f.key ≢ e.key)

abbrev pub Distinct {ℓ} : {K T : Type ℓ} → List (ListEntry K T) → Type ℓ
Distinct [] = Unit
Distinct (e ∷ es) = All (Apart e) es × Distinct es

-- What a client can see of the entries: keys and values, most recently used first.
abbrev pub pairs {ℓ} : {K T : Type ℓ} → List (ListEntry K T) → List (K × T)
pairs = map (λ e. (e.key, e.value))

pub length-pairs {ℓ} : {K T : Type ℓ} (es : List (ListEntry K T)) → length (pairs es) ≡ length es
length-pairs [] = refl
length-pairs (e ∷ es) = ap suc (length-pairs es)

pub head?-pairs {ℓ} :
    {K T : Type ℓ} (es : List (ListEntry K T)) {k : K} {v : T} {r : List (K × T)}
    → pairs es ≡ (k, v) ∷ r
    → (e : ListEntry K T) × (head? es ≡ some e) × (e.value ≡ v)
head?-pairs [] {r = r} h = let short : 0 ≡ suc (length r) = ap length h in absurd (omega arith)
head?-pairs {K = K} {T = T} (e ∷ es) {k} {v} {r} h =
    (e, refl, ap (λ (l : List (K × T)). (get_or l 0 (k, v)).1) h)

some≢none : (n : ℕ) → some n ≢ none
some≢none n q = ground arith

module _ {ℓ} {K T : Type ℓ} (dec : Discrete K) where
  -- The node of the first entry with the key.
  unfoldable pub node_of : K → List (ListEntry K T) → Option ℕ
  node_of k [] = none
  node_of k (e ∷ es) = ite (dec e.key k) (some e.node) (node_of k es)

  unfoldable pub recall : K → List (K × T) → Option T
  recall k [] = none
  recall k ((j, v) ∷ r) = ite (dec j k) (some v) (recall k r)

  unfoldable pub forget : K → List (K × T) → List (K × T)
  forget k [] = []
  forget k ((j, v) ∷ r) = ite (dec j k) r ((j, v) ∷ forget k r)

  pub absent :
      (k : K) (es : List (ListEntry K T))
      → node_of k es ≡ none
      → (recall k (pairs es) ≡ none) × (forget k (pairs es) ≡ pairs es)
  unfolding node_of recall forget
  absent k [] h = (refl, refl)
  absent k (e ∷ es) h = elim (dec e.key k) [
    | yes p ↦ absurd (some≢none e.node (sym (if_pos (dec e.key k) p _ _) ∙ h))
    | no p ↦
        let (r, f) = absent k es (sym (if_neg (dec e.key k) p _ _) ∙ h) in
        (if_neg (dec e.key k) p _ _ ∙ r, if_neg (dec e.key k) p _ _ ∙ ap (◌∷◌ (e.key, e.value)) f)
  ]

  -- A new node is apart from the others.
  pub new_entry-Apart :
      (n : ℕ) (k : K) (v : T) (es : List (ListEntry K T))
      → All (λ e. e.node < n) es
      → node_of k es ≡ none
      → All (Apart (record { node = n; key = k; value = v })) es
  unfolding node_of
  new_entry-Apart n k v [] below h = tt
  new_entry-Apart n k v (e ∷ es) below h = elim (dec e.key k) [
    | yes p ↦ absurd (some≢none e.node (sym (if_pos (dec e.key k) p _ _) ∙ h))
    | no p ↦ (
      (λ q. omega arith, p),
      new_entry-Apart n k v es below.1 (sym (if_neg (dec e.key k) p _ _) ∙ h),
    )
  ]

  -- What unlinking the node of a key gives.
  pub record Found (n : ℕ) (k : K) (es : List (ListEntry K T)) : Type ℓ where
    pub entry : ListEntry K T
    pub rest : List (ListEntry K T)
    pub here : entry.node ≡ n
    pub names : entry.key ≡ k
    pub valued : value_at n es ≡ some entry.value
    pub unlinked : unlink n es ≡ some (entry, rest)
    pub assigned :
        (v : T)
        → (es' : List (ListEntry K T)) × (assign_value n v es ≡ some es')
          × (unlink n es' ≡ some (record entry { value = v }, rest))
    pub recalled : recall k (pairs es) ≡ some entry.value
    pub forgotten : pairs rest ≡ forget k (pairs es)
    pub same_nodes : (q : K) → node_of q (entry ∷ rest) ≡ node_of q es
    pub apart : (g : ListEntry K T) → All (Apart g) es → Apart g entry × All (Apart g) rest
    pub fresh : (m : ℕ) → All (λ e. e.node < m) es → (entry.node < m) × All (λ e. e.node < m) rest
    pub distinct : Distinct (entry ∷ rest)
    pub count : length es ≡ suc (length rest)

  found_first :
      (n : ℕ) (k : K) (e : ListEntry K T) (es : List (ListEntry K T))
      → Distinct (e ∷ es)
      → e.key ≡ k
      → e.node ≡ n
      → Found n k (e ∷ es)
  unfolding value_at unlink assign_value recall forget
  found_first n k e es d p h = record {
    entry = e;
    rest = es;
    here = h;
    names = p;
    valued = rw (eq→== e.node n h);
    unlinked = rw (eq→== e.node n h);
    assigned = λ v. (record e { value = v } ∷ es, rw (eq→== e.node n h), rw (eq→== e.node n h));
    recalled = if_pos (dec e.key k) p _ _;
    forgotten = sym (if_pos (dec e.key k) p _ _);
    same_nodes = λ q. refl;
    apart = λ g a. a;
    fresh = λ m a. a;
    distinct = d;
    count = refl;
  }

  found_later :
      (n : ℕ) (k : K) (e : ListEntry K T) (es : List (ListEntry K T))
      → Distinct (e ∷ es)
      → e.key ≢ k
      → Found n k es
      → Found n k (e ∷ es)
  unfolding value_at unlink assign_value recall forget node_of
  found_later n k e es d p f = record {
    entry = f.entry;
    rest = e ∷ f.rest;
    here = f.here;
    names = f.names;
    valued = rw (other, f.valued);
    unlinked = rw (other, f.unlinked);
    assigned = λ v. let (es', a, u) = f.assigned v in (e ∷ es', rw (other, a), rw (other, u));
    recalled = if_neg (dec e.key k) p _ _ ∙ f.recalled;
    forgotten = ap (◌∷◌ (e.key, e.value)) f.forgotten ∙ sym (if_neg (dec e.key k) p _ _);
    same_nodes = λ q. swap_nodes q;
    apart = λ g a. let (h, r) = f.apart g a.1 in (h, (a.0, r));
    fresh = λ m a. let (h, r) = f.fresh m a.1 in (h, (a.0, r));
    distinct =
        (((λ q. away.0.0 (sym q), λ q. away.0.1 (sym q)), f.distinct.0), (away.1, f.distinct.1));
    count = ap suc f.count;
  }
    where
      away : Apart e f.entry × All (Apart e) f.rest
      away = f.apart e d.0

      other : (e.node == n) ≡ false
      other = ne→== e.node n (λ q. away.0.0 (f.here ∙ sym q))

      swap_nodes : (q : K) → node_of q (f.entry ∷ e ∷ f.rest) ≡ node_of q (e ∷ es)
      swap_nodes q = elim (dec f.entry.key q) [
        | yes i ↦
            if_pos (dec f.entry.key q) i _ _
            ∙ sym (if_pos (dec f.entry.key q) i _ _)
            ∙ f.same_nodes q
            ∙ sym (if_neg (dec e.key q) (λ j. away.0.1 (i ∙ sym j)) _ _)
        | no i ↦
            if_neg (dec f.entry.key q) i _ _
            ∙ ap (λ o. ite (dec e.key q) (some e.node) o)
                (sym (if_neg (dec f.entry.key q) i _ _) ∙ f.same_nodes q)
      ]

  pub found :
      (n : ℕ) (k : K) (es : List (ListEntry K T))
      → Distinct es
      → node_of k es ≡ some n
      → Found n k es
  unfolding node_of
  found n k [] d h = absurd (ground arith)
  found n k (e ∷ es) d h = elim (dec e.key k) [
    | yes p ↦
        found_first n k e es d p (some-injective e.node n (sym (if_pos (dec e.key k) p _ _) ∙ h))
    | no p ↦ found_later n k e es d p (found n k es d.1 (sym (if_neg (dec e.key k) p _ _) ∙ h))
  ]

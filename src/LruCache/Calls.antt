-- ===== src/LruCache/Calls.antt =====
-- Any sequence of calls on a cache, against a bounded list of keys and values.
use cpp_playground.Prelude.{
  [], ◌∷◌, List, Option, ℕ, ◌<◌, returned, some, ◌≡◌, none, ◌∙◌, ap₂, refl, arith,
}
use mathlib.Core.Option
use cpp_playground.LruCache.{LruCache, insert, get, construct, find}
use cpp_playground.LruCache.Nodes.{pairs, recall, node_of}
use cpp_playground.LruCache.Validity.{IsValid}
use cpp_playground.LruCache.Shrink.{Returns}
use cpp_playground.LruCache.Recency.{insert_pairs, get_pairs, insert_lem, get_lem}

pub data Call {ℓ} (K T : Type ℓ) : Type ℓ where
  put : K → T → Call K T
  look_up : K → Call K T

module _ {ℓ} {K T : Type ℓ} (dec : Discrete K) where
  -- The answer of a call, and the cache after it; none if the behaviour is undefined.
  perform : Call K T → LruCache K T → Option (Option T × LruCache K T)
  perform (put k v) c = elim (insert dec k v c) [ returned t c' ↦ some (some t, c') | _ ↦ none ]
  perform (look_up k) c = elim (get dec k c) [ returned o c' ↦ some (o, c') | _ ↦ none ]

  pub run : LruCache K T → List (Call K T) → Option (List (Option T))
  run c [] = some []
  run c (q ∷ qs) = elim (perform q c) [
    | none ↦ none
    | some (o, c') ↦ Option.map (◌∷◌ o) (run c' qs)
  ]

  -- The specification: at most `cap` pairs, most recently used first.
  abbrev pub list_step : ℕ → Call K T → List (K × T) → Option T × List (K × T)
  list_step cap (put k v) r = (some v, insert_pairs dec cap k v r)
  list_step cap (look_up k) r = (recall dec k r, get_pairs dec k r)

  pub list_run : ℕ → List (K × T) → List (Call K T) → List (Option T)
  list_run cap r [] = []
  list_run cap r (q ∷ qs) = let (o, r') = list_step cap q r in o ∷ list_run cap r' qs

  perform_lem :
      (q : Call K T) (c : LruCache K T)
      → IsValid dec c
      → 0 < c.m_capacity
      → (c' : LruCache K T) × (perform q c
          ≡ some ((list_step c.m_capacity q (pairs c.m_elements)).0, c'))
        × IsValid dec c'
        × (c'.m_capacity ≡ c.m_capacity)
        × (pairs c'.m_elements ≡ (list_step c.m_capacity q (pairs c.m_elements)).1)
  unfolding perform Returns
  perform_lem (put k v) c h room =
      let (c', e, h', same, r) = insert_lem dec c k v h room in (c', rw (e, perform), h', same, r)
  perform_lem (look_up k) c h room =
      let (c', e, h', same, r) = get_lem dec c k h in (c', rw (e, perform), h', same, r)

  pub construct-IsValid : (capacity : ℕ) → IsValid {T = T} dec (construct capacity)
  unfolding construct find node_of
  construct-IsValid capacity = record {
    bounded = omega arith;
    coherent = record { distinct = tt; fresh = tt; agrees = λ k. refl };
  }

  -- From a valid cache with room for an element, no sequence of calls faults or throws, and the
  -- answers are those of the list of its pairs, most recently used first and bounded by the
  -- capacity.
  pub cache_run_refines :
      (qs : List (Call K T)) (c : LruCache K T)
      → IsValid dec c
      → 0 < c.m_capacity
      → run c qs ≡ some (list_run c.m_capacity (pairs c.m_elements) qs)
  unfolding run list_run
  cache_run_refines [] c h room = refl
  cache_run_refines (q ∷ qs) c h room =
      let p = perform_lem q c h room in
      let r : List (K × T) = (list_step c.m_capacity q (pairs c.m_elements)).1 in
      let rest : run p.0 qs ≡ some (list_run c.m_capacity r qs) =
        cache_run_refines qs p.0 p.2 (rw p.3 room) ∙ ap₂ (λ k s. some (list_run k s qs)) p.3 p.4 in
      rw (p.1, run, rest)

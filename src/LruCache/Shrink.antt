-- ===== src/LruCache/Shrink.antt =====
-- `shrink_to_fit` keeps the most recent entries, as many as the capacity.
use cpp_playground.Prelude.{
  zero, suc, Action, ℕ, ◌<◌, List, length, take, ◌≡◌, arith, returned, ltb-cases, refl, inl,
  >>=-returned, ◌∙◌, inr, ap, none, sym, take_of_length-le, take-take,
}
use cpp_playground.LruCache.{LruCache, pop_back, erase, evict, shrink_loop, shrink_to_fit}
use cpp_playground.LruCache.Nodes.{pairs, length-pairs}
use cpp_playground.LruCache.Validity.{IsValid, IsCoherent, find-erase, popped_of}
use mathlib.Core.Logic.{ite}

module _ {ℓ} {K T : Type ℓ} (dec : Discrete K) where
  -- An operation returns, keeps the cache valid, and leaves the pairs given.
  unfoldable pub Returns {κ} :
      {A : Type κ} → Action (LruCache K T) A → LruCache K T → A → List (K × T) → Type (ℓ ⊔ κ)
  Returns m c a r =
      (c' : LruCache K T) × (m c ≡ returned a c')
      × IsValid dec c'
      × (c'.m_capacity ≡ c.m_capacity)
      × (pairs c'.m_elements ≡ r)

  evict_lem :
      (c : LruCache K T)
      → IsCoherent dec c
      → c.m_capacity < length c.m_elements
      → (c' : LruCache K T) × (evict dec c ≡ returned tt c')
        × IsCoherent dec c'
        × (c'.m_capacity ≡ c.m_capacity)
        × (length c.m_elements ≡ suc (length c'.m_elements))
        × (pairs c'.m_elements ≡ take (length c'.m_elements) (pairs c.m_elements))
  unfolding evict
  evict_lem c h over =
      let p = popped_of dec c.m_elements (omega arith) h.distinct in
      let c' : LruCache K T = record c {
        m_lookup = erase dec p.last c.m_lookup;
        m_elements = pop_back c.m_elements;
      } in
      (
        c',
        rw (p.named, evict),
        record {
          distinct = p.distinct;
          fresh = p.fresh c.m_fresh h.fresh;
          agrees = λ k.
              find-erase dec p.last k c.m_lookup
              ∙ ap (λ o. ite (dec p.last k) none o) (h.agrees k)
              ∙ sym (p.nodes k);
        },
        refl,
        p.count,
        p.prefix,
      )

  pub shrink_loop_lem :
      (fuel : ℕ) (c : LruCache K T)
      → IsCoherent dec c
      → length c.m_elements < fuel
      → Returns (shrink_loop dec fuel) c tt (take c.m_capacity (pairs c.m_elements))
  unfolding shrink_loop Returns
  shrink_loop_lem zero c h enough = absurd (omega arith)
  shrink_loop_lem (suc fuel) c h enough = elim (ltb-cases c.m_capacity (length c.m_elements)) [
    | inl (over, t) ↦
        let (c', e, h', same, count, kept) = evict_lem c h over in
        let (d, e', valid, same', r) = shrink_loop_lem fuel c' h' (omega arith) in
        (
          d,
          rw t (>>=-returned (evict dec) (λ _. shrink_loop dec fuel) {s = c} e ∙ e'),
          valid,
          same' ∙ same,
          r
              ∙ ap (λ n. take n (pairs c'.m_elements)) same
              ∙ ap (take c.m_capacity) kept
              ∙ take-take c.m_capacity (length c'.m_elements) (pairs c.m_elements) (omega arith),
        )
    | inr (fits, t) ↦ (
      c,
      rw t,
      record { bounded = fits; coherent = h },
      refl,
      sym (
          take_of_length-le c.m_capacity (pairs c.m_elements)
            (omega (arith, length-pairs c.m_elements))),
    )
  ]

  -- On a coherent cache, however far over its capacity, `shrink_to_fit` ends, and leaves a valid
  -- cache of the same capacity with the most recent pairs, as many as fit.
  pub shrink_to_fit_lem :
      (c : LruCache K T)
      → IsCoherent dec c
      → Returns (shrink_to_fit dec) c tt (take c.m_capacity (pairs c.m_elements))
  unfolding shrink_to_fit Returns
  shrink_to_fit_lem c h = shrink_loop_lem (suc (length c.m_elements)) c h (omega arith)

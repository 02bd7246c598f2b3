-- ===== src/LruCache/Tests.antt =====
-- Runs of the cache on small inputs, and the theorems at concrete inputs.
use cpp_playground.Prelude.{ℕ, List, [], ◌∷◌, ◌≡◌, refl, arith, some, ℕ_discrete, fault}
use cpp_playground.LruCache.{LruCache, insert, construct, find}
use cpp_playground.LruCache.Nodes.{node_of}
use cpp_playground.LruCache.Validity.{IsValid, IsCoherent}
use cpp_playground.LruCache.Shrink.{Returns}
use cpp_playground.LruCache.Recency.{insert_pairs, insert_lem, insert-no_room}
use cpp_playground.LruCache.Calls.{
  Call, put, look_up, run, list_run, construct-IsValid, cache_run_refines,
}

-- 2 was used after 1.
abbrev two : LruCache ℕ ℕ
two = record {
  m_elements =
      record { node = 1; key = 2; value = 20 } ∷ record { node = 0; key = 1; value = 10 } ∷ [];
  m_lookup = (2, 1) ∷ (1, 0) ∷ [];
  m_capacity = 2;
  m_fresh = 2;
}

two-IsValid : IsValid ℕ_discrete two
unfolding find node_of
two-IsValid = record {
  bounded = omega arith;
  coherent = record {
    distinct = (((λ q. omega arith, λ q. omega arith), tt), (tt, tt));
    fresh = (omega arith, (omega arith, tt));
    agrees = λ k. refl;
  };
}

abbrev contents : List (ℕ × ℕ)
contents = (2, 20) ∷ (1, 10) ∷ []

-- 1 is used after 2, so 3 takes the place of 2.
abbrev calls : List (Call ℕ ℕ)
calls = look_up 1 ∷ put 3 30 ∷ look_up 2 ∷ look_up 1 ∷ put 3 31 ∷ []

cache_run_refines_example : run ℕ_discrete two calls ≡ some (list_run ℕ_discrete 2 contents calls)
cache_run_refines_example = cache_run_refines ℕ_discrete calls two two-IsValid (omega arith)

insert_lem_example :
    Returns ℕ_discrete
      (insert {T = ℕ} ℕ_discrete 5 50)
      two
      50
      (insert_pairs ℕ_discrete 2 5 50 contents)
insert_lem_example = insert_lem ℕ_discrete two 5 50 two-IsValid (omega arith)

-- The capacity of `two` cut to 1.
abbrev over_full : LruCache ℕ ℕ
over_full = record two { m_capacity = 1 }

over_full-IsCoherent : IsCoherent ℕ_discrete over_full
unfolding find node_of
over_full-IsCoherent = record {
  distinct = (((λ q. omega arith, λ q. omega arith), tt), (tt, tt));
  fresh = (omega arith, (omega arith, tt));
  agrees = λ k. refl;
}

insert-no_room_example : insert {T = ℕ} ℕ_discrete 1 10 (construct 0) ≡ fault
unfolding construct
insert-no_room_example =
    insert-no_room ℕ_discrete (construct 0) 1 10 (construct-IsValid ℕ_discrete 0) refl

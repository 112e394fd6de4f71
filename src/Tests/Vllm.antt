-- ===== src/Tests/Vllm.antt =====
-- The vLLM policies at concrete inputs: keys and statuses are numbers.
use adaptive_context_residen.Common.{
  ℕ, min, ◌≡◌, ◌≢◌, refl, false, none, some, [], ◌∷◌, arith, nat_eq, ltb,
}
use adaptive_context_residen.Common.Dict.{Dict, lookup, insert, erase}
use adaptive_context_residen.Common.Result.{ok, exception, items_at}
use adaptive_context_residen.Common.Sort.{sort}
use adaptive_context_residen.Config.{default_cost}
use adaptive_context_residen.Vllm.Ttl.{
  Ttl, init, insert_block, mark_non_evictable, live, deadline, evict, remove_all, remove,
  expired_of, by_deadline,
}
use adaptive_context_residen.Vllm.Ttl.Invariant.{
  IsValid, init-IsValid, insert_block-IsValid, mark_non_evictable-IsValid,
}
use adaptive_context_residen.Vllm.Ttl.Evict.{Evicted, evict-Evicted}
use adaptive_context_residen.Vllm.Ttl.Order.{evict_order}
use adaptive_context_residen.Vllm.Ttl.Reach.{inserted, held, here, next, evict_reachable}
use adaptive_context_residen.Vllm.Launch.{plan, wanted_bytes, cap_bytes, is_lossy, plan-bytes}
use adaptive_context_residen.Tests.Numbers.{milli, milli-IsOrdered}

abbrev empty : Ttl ℕ ℕ
empty = init 8 none none

-- Three blocks, the first pinned, the second due before the third.
abbrev three : Ttl ℕ ℕ
three =
    mark_non_evictable (insert_block (insert_block (insert_block empty 1 10 0) 2 20 1000) 3 30 2000)
      1

three-IsValid : IsValid three
three-IsValid = mark_non_evictable-IsValid _ 1 (
    insert_block-IsValid _ 3 30 2000 (
      insert_block-IsValid _ 2 20 1000
        (insert_block-IsValid empty 1 10 0 (init-IsValid 8 none none))))

evict-Evicted_example :
    (out : Dict ℕ ℕ) × (p' : Ttl ℕ ℕ) × (evict three 1 [] 5000 ≡ ok (some out, p'))
    × Evicted three 1 [] out p'
    × IsValid p'
unfolding live mark_non_evictable insert_block init insert
evict-Evicted_example = evict-Evicted three 1 [] 5000 three-IsValid (omega arith)

evict_order_example :
    (milli.le (deadline three.expires 3) 5000 ≡ false)
    × (milli.lt (deadline three.expires 3) (deadline three.expires 2) ≡ false)
unfolding evict live mark_non_evictable insert_block init insert lookup deadline remove_all remove
    erase sort items_at expired_of by_deadline
evict_order_example =
    evict_order milli-IsOrdered three 1 [] 5000 ((2, 20) ∷ []) (remove three 2) 2 3 three-IsValid
      refl refl refl refl refl

evict_reachable_example : evict three 2 (3 ∷ []) 5000 ≢ exception
evict_reachable_example = evict_reachable 8 none none three 2 (3 ∷ []) 5000 (
    next
      (next
        (next (next here (inserted empty 1 10 0)) (inserted (insert_block empty 1 10 0) 2 20 1000))
        (inserted (insert_block (insert_block empty 1 10 0) 2 20 1000) 3 30 2000))
      (held (insert_block (insert_block (insert_block empty 1 10 0) 2 20 1000) 3 30 2000) 1))

plan-bytes_example :
    ((plan 5000 160000 none none (some default_cost) none).cpu_bytes_to_use
      ≡ min (wanted_bytes 5000 default_cost) (cap_bytes 160000))
    × (is_lossy (plan 5000 160000 none none (some default_cost) none).warnings
        ≡ ltb
            (plan 5000 160000 none none (some default_cost) none).cpu_bytes_to_use
            (wanted_bytes 5000 default_cost))
plan-bytes_example = plan-bytes 5000 160000 none none default_cost none

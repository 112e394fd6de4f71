-- ===== src/Tests/Value.antt =====
-- `AcrValuePolicy` at concrete inputs: keys and statuses are numbers, and every new block is idle.
use adaptive_context_residen.Common.{ℕ, ◌≡◌, refl, Bool, true, false, some, List, [], ◌∷◌, nat_eq}
use adaptive_context_residen.Common.Dict.{Dict, lookup, insert, erase}
use adaptive_context_residen.Common.Result.{items_at}
use adaptive_context_residen.Common.Sort.{sort}
use adaptive_context_residen.Vllm.Hints.{Hints, no_hints, has_hints, blob}
use adaptive_context_residen.Vllm.Value.{
  Meta, Value, default_knobs, bytes_of, init, insert_block, touch, remove,
}
use adaptive_context_residen.Vllm.Value.Evict.{
  candidates, ranked, rank, rank_lt, evict, remove_all, score, score_meta, score_raises,
  ranking_raises, pressure, reuse_prob, hazard, aggregate, worth, bytes_or,
}
use adaptive_context_residen.Vllm.Value.Invariant.{IsValid, init-IsValid, insert_block-IsValid}
use adaptive_context_residen.Vllm.Value.Laws.{IsIteration, value_evict_order}
use adaptive_context_residen.Vllm.Value.Touch.{touch_eta, evict_cold, without_eta}
use adaptive_context_residen.Tests.Numbers.{milli, milli-IsOrdered}

abbrev always : ℕ → Bool
always b = true

abbrev in_order : List ℕ → List ℕ
in_order xs = xs

in_order-IsIteration : IsIteration in_order
in_order-IsIteration = record { once = λ xs d. d; members = λ k xs. refl }

abbrev empty : Value ℕ ℕ
empty = init 8 default_knobs

-- Two blocks, the first older than the second.
abbrev two : Value ℕ ℕ
two = insert_block always (insert_block always empty 1 10 1000) 2 20 2000

two-IsValid : IsValid two
two-IsValid =
    insert_block-IsValid always _ 2 20 2000
      (insert_block-IsValid always empty 1 10 1000 (init-IsValid 8 default_knobs))

value_evict_order_example : rank_lt (rank two 5000 2) (rank two 5000 1) ≡ false
unfolding evict score_raises ranking_raises candidates ranked rank insert_block init insert lookup
    score score_meta pressure reuse_prob hazard aggregate worth bytes_or bytes_of default_knobs sort
    items_at remove_all remove erase
value_evict_order_example =
    value_evict_order in_order two 1 [] 5000 ((1, 10) ∷ []) (remove two 1) 1 2 milli-IsOrdered
      in_order-IsIteration two-IsValid refl refl refl refl refl

abbrev cold : ℕ → Meta
cold t = record {
  last_use = t;
  uses = 0;
  iat = 0;
  leases = 1000;
  weight = 1000;
  bytes = bytes_of default_knobs;
}

evict_cold_example : milli.lt 2000 1000 ≡ false
unfolding evict score_raises ranking_raises candidates ranked rank insert_block init insert lookup
    score score_meta pressure reuse_prob hazard aggregate worth bytes_or bytes_of default_knobs sort
    items_at remove_all remove erase
evict_cold_example =
    evict_cold in_order two 1 [] 5000 ((1, 10) ∷ []) (remove two 1) 1 2 (cold 1000) (cold 2000) 1000
      1000 (bytes_of default_knobs) milli-IsOrdered in_order-IsIteration two-IsValid refl refl refl
      refl refl
      (record {
        known = refl;
        no_gap = refl;
        same_leases = refl;
        same_weight = refl;
        same_bytes = refl;
      })
      (record {
        known = refl;
        no_gap = refl;
        same_leases = refl;
        same_weight = refl;
        same_bytes = refl;
      })

abbrev hints : Hints
hints = record no_hints { role = some "patient"; tool_eta_s = some 30000 }

touch_eta_example :
    touch two (1 ∷ []) (blob hints) 5000 ≡ touch two (1 ∷ []) (blob (without_eta hints)) 5000
unfolding has_hints
touch_eta_example = touch_eta two (1 ∷ []) hints 5000 30000 refl refl refl

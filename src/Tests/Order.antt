-- ===== src/Tests/Order.antt =====
-- The order of eviction at a concrete input.
use adaptive_context_residen.Common.{ℕ, ◌≡◌, refl, false, [], ◌∷◌}
use adaptive_context_residen.Common.Dict.{Dict, lookup}
use adaptive_context_residen.Common.Sort.{sort}
use adaptive_context_residen.Index.Defs.{Key, private, key_beq}
use adaptive_context_residen.Policies.Tier.{Entry, frequency}
use adaptive_context_residen.Policies.Take.{take_until, take_greedy}
use adaptive_context_residen.Policies.Take.Laws.{IsKeyed}
use adaptive_context_residen.Policies.Evict.{before, unprotected, evict_sorted}
use adaptive_context_residen.Policies.Evict.Order.{evict_sorted_order}
use adaptive_context_residen.Tests.Numbers.{milli, milli-IsOrdered}

abbrev block : ℕ → ℕ → ℕ → Entry
block i uses last_touch = record {
  key = private "s" i;
  nbytes = 100;
  inserted_at = 1000;
  last_touch = last_touch;
  uses = uses;
  expires_at = milli.infinity;
  next_use = milli.infinity;
}

-- The second block is used as often as the first, but earlier.
abbrev entries : Dict Key Entry
entries =
    (private "s" 0, block 0 2 5000)
    ∷ (private "s" 1, block 1 2 4000)
    ∷ (private "s" 2, block 2 1 9000)
    ∷ []

entries-IsKeyed : IsKeyed entries
unfolding key_beq
entries-IsKeyed = record { distinct = (refl, (refl, (refl, tt))); own = (refl, (refl, (refl, tt))) }

evict_sorted_order_example : before frequency (block 0 2 5000) (block 1 2 4000) ≡ false
unfolding evict_sorted unprotected take_greedy take_until sort lookup key_beq
evict_sorted_order_example =
    evict_sorted_order milli-IsOrdered frequency 150 [] entries entries-IsKeyed (block 1 2 4000)
      (block 0 2 5000) refl refl refl refl refl

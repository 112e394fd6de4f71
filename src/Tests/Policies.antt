-- ===== src/Tests/Policies.antt =====
-- The policies of the tier below HBM at concrete inputs.
use adaptive_context_residen.Common.{ℕ, String, true, [], ◌∷◌}
use adaptive_context_residen.Common.Dict.{Dict}
use adaptive_context_residen.Config.{default_cost, TierConfig}
use adaptive_context_residen.Index.Defs.{key_eq, root, private}
use adaptive_context_residen.Policies.Probe.{Probe}
use adaptive_context_residen.Policies.Tier.{adaptive_value, TierPolicy, insert_entry}
use adaptive_context_residen.Policies.Take.Laws.{IsKeyed}
use adaptive_context_residen.Policies.Laws.{insert_entry-IsKeyed}
use adaptive_context_residen.Policies.Evict.{evict}
use adaptive_context_residen.Policies.Evict.Freed.{Freed}
use adaptive_context_residen.Policies.Evict.Sorted.{evicted}
use adaptive_context_residen.Policies.Evict.Laws.{unexpired, evict-Freed}
use adaptive_context_residen.Tests.Numbers.{milli}
use adaptive_context_residen.Tests.Index.{two_turns}

abbrev pub ram : TierConfig
ram = record {
  name = "ram";
  bytes_capacity = 500000;
  bandwidth_gbs = 96000;
  enabled = true;
  efficiency = 550;
}

abbrev pub probe : Probe
probe = record {
  index = two_turns;
  cost = default_cost;
  tier = ram;
  horizon_s = 120000;
  now = 7000;
  tool_eta = ("s", 2000) ∷ [];
}

abbrev priors : Dict String ℕ
priors = ("coder", 500) ∷ ("default", 100) ∷ []

-- A tier with two blocks of the sessions "s" and "t".
abbrev tier : TierPolicy
tier =
    insert_entry
      (insert_entry
        (record { kind = adaptive_value 500 120000 priors; capacity = 500000; entries = [] })
        (root "root:coder" 0) 230364 5000 probe)
      (private "s" 2) 230364 6000 probe

tier-IsKeyed : IsKeyed tier.entries
tier-IsKeyed = insert_entry-IsKeyed _ (private "s" 2) 230364 6000 probe (
    insert_entry-IsKeyed _ (root "root:coder" 0) 230364 5000 probe
      (record { distinct = tt; own = tt }))

evict-Freed_example :
    Freed
      (unexpired tier.kind 7000 tier.entries)
      100000
      (private "s" 2 ∷ [])
      (evicted (evict tier 100000 (private "s" 2 ∷ []) 7000 probe).0)
      (evict tier 100000 (private "s" 2 ∷ []) 7000 probe).1.entries
evict-Freed_example = evict-Freed tier 100000 (private "s" 2 ∷ []) 7000 probe tier-IsKeyed

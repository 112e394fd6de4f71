-- ===== src/Vllm/Ttl.antt =====
-- src/acr/vllm/ttl.py: `SessionTtlPolicy`. Block keys and statuses are the engine's, and only
-- compared or passed on. `time.monotonic()` is the argument `now`.
pub mod Invariant
pub mod Evict
pub mod Order
pub mod Reach
use adaptive_context_residen.Common.{
  ℕ, zero, suc, String, Bool, true, false, not, ◌&&◌, Option, none, some, is_some, List, [], ◌∷◌,
  ◌++◌, if◌then◌else◌, ltb, ◌==◌, filter, length, take, Eq, ◌=?◌, string_eq,
}
use adaptive_context_residen.Common.Dict.{Dict, keys, lookup, insert, erase, elem, add, discard}
use adaptive_context_residen.Common.Result.{Result, ok, exception, ◌>>=◌, item, items_at}
use adaptive_context_residen.Common.Sort.{sort}
use adaptive_context_residen.Floats.{FloatOps}
use adaptive_context_residen.Vllm.Hints.{Params, hints_of, role_of}

module _ ⦃fl : FloatOps⦄ where
  open fl use {F, of_ℕ}

  pub record Ttl (K B : Type 0) : Type 0 where
    pub cache_capacity : ℕ
    pub ttl : Dict String F
    pub default_ttl : F
    pub blocks : Dict K B
    pub expires : Dict K F
    pub role : Dict K String
    pub pinned : List K

  default_ttls : Dict String F
  default_ttls =
      ("patient", of_ℕ 60)
      ∷ ("action_judge", of_ℕ 60)
      ∷ ("coding", of_ℕ 3600)
      ∷ ("supervisor", of_ℕ 3600)
      ∷ []

module _ {K : Type 0} ⦃e : Eq K⦄ ⦃fl : FloatOps⦄ where
  open fl use {F, infinity, le, lt}

  -- `[k for k in live if self.expires[k] <= now]`
  unfoldable pub expired_of : Dict K F → F → List K → Result (List K)
  expired_of expires now [] = ok []
  expired_of expires now (k ∷ ks) = do
    deadline ← item k expires
    rest ← expired_of expires now ks
    ok (if le deadline now then k ∷ rest else rest)

  -- The sort key `self.expires[k]`: `expired_of` has raised before if the key is missing.
  unfoldable pub deadline : Dict K F → K → F
  deadline expires k = elim (lookup k expires) [ none ↦ infinity | some t ↦ t ]

  -- `sorted((k for k in live if k not in set(expired)), key=...)`
  unfoldable pub by_deadline : Dict K F → List K → List K → List K
  unfolding deadline
  by_deadline expires expired ks =
      sort (λ a b. lt (deadline expires a) (deadline expires b))
        (filter (λ k. not (elem k expired)) ks)

module _ {K B : Type 0} ⦃e : Eq K⦄ ⦃fl : FloatOps⦄ where
  open fl use {F, of_ℕ, add as fadd}

  -- `__init__`, with the two settings that the configuration may have.
  unfoldable pub init : ℕ → Option (Dict String F) → Option F → Ttl K B
  unfolding default_ttls
  init cache_capacity ttl_s default_ttl_s = record {
    cache_capacity = cache_capacity;
    ttl = elim ttl_s [ none ↦ default_ttls | some t ↦ t ];
    default_ttl = elim default_ttl_s [ none ↦ of_ℕ 300 | some t ↦ t ];
    blocks = [];
    expires = [];
    role = [];
    pinned = [];
  }

  unfoldable pub get : Ttl K B → K → Option B
  get p key = lookup key p.blocks

  -- `expires.setdefault` keeps a deadline that is there.
  unfoldable pub insert_block : Ttl K B → K → B → F → Ttl K B
  insert_block p key block now = record p {
    blocks = insert key block p.blocks;
    expires =
        if is_some (lookup key p.expires)
        then p.expires
        else insert key (fadd now p.default_ttl) p.expires;
  }

  unfoldable pub remove : Ttl K B → K → Ttl K B
  remove p key = record p {
    blocks = erase key p.blocks;
    expires = erase key p.expires;
    role = erase key p.role;
    pinned = discard key p.pinned;
  }

  -- `self.ttl.get(role, self.default_ttl)`
  unfoldable pub ttl_of : Ttl K B → String → F
  ttl_of p role = elim (lookup role p.ttl) [ none ↦ p.default_ttl | some t ↦ t ]

  -- The body of the loop of `touch`.
  unfoldable pub touch_one : F → F → String → Ttl K B → K → Ttl K B
  touch_one now ttl role p key =
      if is_some (lookup key p.blocks)
      then record p {
        expires = insert key (fadd now ttl) p.expires;
        role = if role =? "" then p.role else insert key role p.role;
      }
      else p

  unfoldable pub touch_all : F → F → String → Ttl K B → List K → Ttl K B
  unfolding touch_one
  touch_all now ttl role p [] = p
  touch_all now ttl role p (key ∷ ks) = touch_all now ttl role (touch_one now ttl role p key) ks

  unfoldable pub touch : Ttl K B → List K → Params → F → Ttl K B
  unfolding touch_all ttl_of hints_of role_of
  touch p ks params now =
      let role = role_of (hints_of params) in touch_all now (ttl_of p role) role p ks

  unfoldable pub mark_evictable : Ttl K B → K → Ttl K B
  mark_evictable p key = record p { pinned = discard key p.pinned }

  unfoldable pub mark_non_evictable : Ttl K B → K → Ttl K B
  mark_non_evictable p key = record p { pinned = add key p.pinned }

  unfoldable pub clear : Ttl K B → Ttl K B
  clear p = record p { blocks = []; expires = []; role = []; pinned = [] }

  -- The blocks that `evict` may take.
  unfoldable pub live : Ttl K B → List K → List K
  live p protected = filter (λ k. not (elem k protected) && not (elem k p.pinned)) (keys p.blocks)

  unfoldable pub remove_all : Ttl K B → List K → Ttl K B
  unfolding remove
  remove_all p [] = p
  remove_all p (k ∷ ks) = remove_all (remove p k) ks

  -- The victims in order, or `none`, and the new state.
  unfoldable pub evict : Ttl K B → ℕ → List K → F → Result (Option (List (K × B)) × Ttl K B)
  evict p n protected now =
      if n == 0
      then ok (some [], p)
      else if ltb (length (live p protected)) n
      then ok (none, p)
      else do
        expired ← expired_of p.expires now (live p protected)
        let victims = take n (expired ++ by_deadline p.expires expired (live p protected))
        out ← items_at victims p.blocks
        ok (some out, remove_all p victims)

-- ===== src/Vllm/Ttl/Reach.antt =====
-- The engine's calls on a `SessionTtlPolicy` in any order.
use adaptive_context_residen.Common.{
  ℕ, String, ◌≡◌, ◌≢◌, Option, none, some, List, arith, length, Eq,
}
use native.Mathlib.Decide.{dec_le}
use adaptive_context_residen.Common.Dict.{Dict}
use adaptive_context_residen.Common.Result.{ok, exception}
use adaptive_context_residen.Floats.{FloatOps}
use adaptive_context_residen.Vllm.Hints.{Params}
use adaptive_context_residen.Vllm.Ttl.{
  Ttl, init, insert_block, remove, touch, mark_evictable, mark_non_evictable, clear, live, evict,
}
use adaptive_context_residen.Vllm.Ttl.Invariant.{
  IsValid, init-IsValid, insert_block-IsValid, remove-IsValid, touch-IsValid,
  mark_evictable-IsValid, mark_non_evictable-IsValid, clear-IsValid,
}
use adaptive_context_residen.Vllm.Ttl.Evict.{evict_refused, evict-Evicted}

module _ {K B : Type 0} ⦃e : Eq K⦄ ⦃fl : FloatOps⦄ where
  open fl use {F}

  -- One callback of the engine.
  pub data Step : Ttl K B → Ttl K B → Type 0 where
    inserted : (p : Ttl K B) (k : K) (b : B) (now : F) → Step p (insert_block p k b now)
    removed : (p : Ttl K B) (k : K) → Step p (remove p k)
    touched :
        (p : Ttl K B) (ks : List K) (params : Params) (now : F) → Step p (touch p ks params now)
    released : (p : Ttl K B) (k : K) → Step p (mark_evictable p k)
    held : (p : Ttl K B) (k : K) → Step p (mark_non_evictable p k)
    cleared : (p : Ttl K B) → Step p (clear p)
    evicted :
        (p : Ttl K B) (n : ℕ) (protected : List K) (now : F) (out : Option (Dict K B))
        (p' : Ttl K B)
        → evict p n protected now ≡ ok (out, p')
        → Step p p'

  pub data Reach (p : Ttl K B) : Ttl K B → Type 0 where
    here : Reach p p
    next : {q r : Ttl K B} → Reach p q → Step q r → Reach p r

  -- `evict` on a valid policy gives an answer and a valid policy.
  evict_total :
      (p : Ttl K B) (n : ℕ) (protected : List K) (now : F)
      → IsValid p
      → (out : Option (Dict K B)) × (p' : Ttl K B) × (evict p n protected now ≡ ok (out, p'))
        × IsValid p'
  evict_total p n protected now v = elim (dec_le n (length (live p protected))) [
    | yes enough ↦
        let (out, p', done, _, v') = evict-Evicted p n protected now v enough in
        (some out, p', done, v')
    | no few ↦ (none, p, evict_refused p v n protected now (omega arith), v)
  ]

  Step-IsValid : {p q : Ttl K B} → Step p q → IsValid p → IsValid q
  Step-IsValid (inserted p k b now) v = insert_block-IsValid p k b now v
  Step-IsValid (removed p k) v = remove-IsValid p k v
  Step-IsValid (touched p ks params now) v = touch-IsValid p ks params now v
  Step-IsValid (released p k) v = mark_evictable-IsValid p k v
  Step-IsValid (held p k) v = mark_non_evictable-IsValid p k v
  Step-IsValid (cleared p) v = clear-IsValid p
  Step-IsValid (evicted p n protected now out p' h) v =
      let (out', q, done, v') = evict_total p n protected now v in
      let same : q ≡ p' = cc in rw (← same) v'

  Reach-IsValid : {p q : Ttl K B} → Reach p q → IsValid p → IsValid q
  Reach-IsValid here v = v
  Reach-IsValid (next r st) v = Step-IsValid st (Reach-IsValid r v)

  -- After any sequence of the engine's calls on a new `SessionTtlPolicy`, `evict` does not raise
  -- `KeyError`.
  pub evict_reachable :
      (capacity : ℕ) (ttls : Option (Dict String F)) (default : Option F) (p : Ttl K B) (n : ℕ)
      (protected : List K) (now : F)
      → Reach (init capacity ttls default) p
      → evict p n protected now ≢ exception
  evict_reachable capacity ttls default p n protected now r h =
      let v = Reach-IsValid r (init-IsValid capacity ttls default) in
      let (out, p', done, _) = evict_total p n protected now v in cc

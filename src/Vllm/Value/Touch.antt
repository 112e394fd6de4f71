-- ===== src/Vllm/Value/Touch.antt =====
-- What `touch` makes of an announced tool ETA, and how blocks without history rank.
use adaptive_context_residen.Common.{
  ℕ, ◌≡◌, refl, sym, ◌∙◌, ap, true, false, none, some, List, [], ◌∷◌, arith, Eq,
}
use adaptive_context_residen.Common.Dict.{Dict, keys, lookup, elem}
use adaptive_context_residen.Common.Result.{ok}
use adaptive_context_residen.Floats.{FloatOps, fmax}
use adaptive_context_residen.Floats.Order.{IsOrdered, le_refl}
use adaptive_context_residen.Vllm.Hints.{Hints, has_hints, blob, hints_of}
use adaptive_context_residen.Vllm.Value.{
  Meta, Knobs, Value, used, hinted, touch_one, touch_all, touch,
}
use adaptive_context_residen.Vllm.Value.Evict.{
  hazard, aggregate, reuse_prob, worth, bytes_or, score_meta, pressure, score, rank, rank_lt, evict,
}
use adaptive_context_residen.Vllm.Value.Invariant.{IsValid}
use adaptive_context_residen.Vllm.Value.Laws.{IsIteration, value_evict_order}

module _ ⦃fl : FloatOps⦄ where
  open fl use {F, add, lt}

  -- The same hints with no ETA.
  abbrev pub without_eta : Hints → Hints
  without_eta h = record h { tool_eta_s = none }

  hinted_eta :
      (c : Knobs) (h : Hints) (now eta : F) (m : Meta)
      → h.tool_eta_s ≡ some eta
      → lt now (add now eta) ≡ true
      → hinted c h now (used m now) ≡ hinted c (without_eta h) now (used m now)
  unfolding hinted used
  hinted_eta c h now eta m announced later = ground arith

  cold_reuse_prob :
      (c : Knobs) (now : fl.F) (m n : Meta)
      → fl.le m.iat (fl.of_ℕ 0) ≡ true
      → fl.le n.iat (fl.of_ℕ 0) ≡ true
      → m.leases ≡ n.leases
      → reuse_prob c m now ≡ reuse_prob c n now
  unfolding reuse_prob hazard
  cold_reuse_prob c now m n cm cn el =
      let p : hazard c m now ≡ hazard c n now = ground arith in
      λ i. aggregate (p i) (fmax (fl.of_ℕ 1) (el i))

  cold_score_meta :
      (c : Knobs) (pr now : fl.F) (m n : Meta)
      → fl.le m.iat (fl.of_ℕ 0) ≡ true
      → fl.le n.iat (fl.of_ℕ 0) ≡ true
      → m.leases ≡ n.leases
      → m.weight ≡ n.weight
      → m.bytes ≡ n.bytes
      → score_meta c pr m now ≡ score_meta c pr n now
  unfolding score_meta
  cold_score_meta c pr now m n cm cn el ew eb =
      let p : reuse_prob c m now ≡ reuse_prob c n now = cold_reuse_prob c now m n cm cn el in
      λ i. worth c pr (p i) (bytes_or c (eb i)) (ew i)

module _ {K B : Type 0} ⦃e : Eq K⦄ ⦃fl : FloatOps⦄ where
  open fl use {F, add, lt, le, of_ℕ}

  touch_one_eta :
      (h : Hints) (now eta : F) (p : Value K B) (key : K)
      → h.tool_eta_s ≡ some eta
      → lt now (add now eta) ≡ true
      → has_hints (without_eta h) ≡ true
      → touch_one h now p key ≡ touch_one (without_eta h) now p key
  unfolding touch_one has_hints
  touch_one_eta h now eta p key announced later more =
      ground (arith, λ (m : Meta). hinted_eta p.knobs h now eta m announced later)

  touch_all_eta :
      (h : Hints) (now eta : F) (ks : List K) (p : Value K B)
      → h.tool_eta_s ≡ some eta
      → lt now (add now eta) ≡ true
      → has_hints (without_eta h) ≡ true
      → touch_all h now p ks ≡ touch_all (without_eta h) now p ks
  unfolding touch_all
  touch_all_eta h now eta [] p a l m = refl
  touch_all_eta h now eta (k ∷ ks) p a l m =
      touch_all_eta h now eta ks (touch_one h now p k) a l m
      ∙ ap (λ q. touch_all (without_eta h) now q ks) (touch_one_eta h now eta p k a l m)

  -- If hints announce an ETA that ends after now, and have another entry, `AcrValuePolicy.touch`
  -- does the same as with the hints without the ETA.
  pub touch_eta :
      (p : Value K B) (ks : List K) (h : Hints) (now eta : F)
      → h.tool_eta_s ≡ some eta
      → lt now (add now eta) ≡ true
      → has_hints (without_eta h) ≡ true
      → touch p ks (blob h) now ≡ touch p ks (blob (without_eta h)) now
  unfolding touch hints_of
  touch_eta p ks h now eta a l m = touch_all_eta h now eta ks p a l m

  -- A block without a history of gaps, and what else its score depends on.
  pub record IsCold (p : Value K B) (k : K) (m : Meta) (leases weight bytes : F) : Type 0 where
    pub known : lookup k p.meta ≡ some m
    pub no_gap : le m.iat (of_ℕ 0) ≡ true
    pub same_leases : m.leases ≡ leases
    pub same_weight : m.weight ≡ weight
    pub same_bytes : m.bytes ≡ bytes

  cold_score :
      (p : Value K B) (now : F) (a b : K) (m n : Meta) (leases weight bytes : F)
      → IsCold p a m leases weight bytes
      → IsCold p b n leases weight bytes
      → score p a now ≡ score p b now
  unfolding score
  cold_score p now a b m n leases weight bytes ca cb =
      let same : score_meta p.knobs (pressure p) m now ≡ score_meta p.knobs (pressure p) n now =
        cold_score_meta p.knobs (pressure p) now m n ca.no_gap cb.no_gap
          (ca.same_leases ∙ sym cb.same_leases) (ca.same_weight ∙ sym cb.same_weight)
          (ca.same_bytes ∙ sym cb.same_bytes) in
      rw (ca.known, cb.known, score) same

  rank_tie :
      (o : IsOrdered fl) (p : Value K B) (now : F) (a b : K) (m n : Meta)
      → score p a now ≡ score p b now
      → lookup a p.meta ≡ some m
      → lookup b p.meta ≡ some n
      → rank_lt (rank p now a) (rank p now b) ≡ false
      → lt m.last_use n.last_use ≡ false
  unfolding rank
  rank_tie o p now a b m n same ka kb h = ground (
    arith,
    o.eq_both_le (score p a now) (score p b now),
    le_refl fl o (score p a now),
    o.eq_both_le m.last_use n.last_use,
    o.lt_not_le m.last_use n.last_use,
  )

  -- With an ordered float, on a valid policy, among blocks without a history of gaps and with the
  -- same leases, weight and bytes, `AcrValuePolicy.evict` leaves none that was used before one
  -- that it takes.
  pub evict_cold :
      (order : List K → List K) (p : Value K B) (n : ℕ) (protected : List K) (now : F)
      (out : Dict K B) (p' : Value K B) (v s : K) (mv ms : Meta) (leases weight bytes : F)
      → IsOrdered fl
      → IsIteration order
      → IsValid p
      → evict order p n protected now ≡ ok (some out, p')
      → elem v (keys out) ≡ true
      → elem s p.evictable ≡ true
      → elem s protected ≡ false
      → elem s (keys out) ≡ false
      → IsCold p v mv leases weight bytes
      → IsCold p s ms leases weight bytes
      → lt ms.last_use mv.last_use ≡ false
  evict_cold order p n protected now out p' v s mv ms leases weight bytes o iter valid h tv ts ps ns
        cv cs =
      rank_tie o p now s v ms mv (cold_score p now s v ms mv leases weight bytes cs cv) cs.known
        cv.known (value_evict_order order p n protected now out p' v s o iter valid h tv ts ps ns)

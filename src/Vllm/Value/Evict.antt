-- ===== src/Vllm/Value/Evict.antt =====
-- `score`, `reuse_prob` and `evict` of `AcrValuePolicy`.
use adaptive_context_residen.Common.{
  ℕ, ◌^◌, max, Bool, not, ◌&&◌, ◌||◌, any, is_some, Option, none, some, List, [], ◌∷◌,
  if◌then◌else◌, ltb, ◌==◌, filter, length, take, Eq,
}
use adaptive_context_residen.Common.Dict.{Dict, lookup, elem}
use adaptive_context_residen.Common.Keys.{lex}
use adaptive_context_residen.Common.Result.{Result, ok, ◌>>=◌, items_at, raise_if}
use adaptive_context_residen.Common.Sort.{sort}
use adaptive_context_residen.Floats.{FloatOps, fmax, fmin}
use adaptive_context_residen.Vllm.Value.{Meta, Knobs, Value, bytes_of, remove}

module _ ⦃fl : FloatOps⦄ where
  open fl use {F, of_ℕ, decimal, add, sub, mul, div, neg, pow, exp, lt, le, eq}

  -- The hazard of one block, before the leases count.
  unfoldable pub hazard : Knobs → Meta → F → F
  hazard c m now =
      let idle = fmax (of_ℕ 0) (sub now m.last_use) in
      if le m.iat (of_ℕ 0)
      then decimal 5 2
      else mul (exp (div (neg idle) m.iat)) (sub (of_ℕ 1) (exp (div (neg c.horizon_s) m.iat)))

  -- `p if leases <= 1 else 1.0 - (1.0 - p) ** min(leases, 8)`
  unfoldable pub aggregate : F → F → F
  aggregate p leases =
      if le leases (of_ℕ 1) then p else sub (of_ℕ 1) (pow (sub (of_ℕ 1) p) (fmin leases (of_ℕ 8)))

  unfoldable pub reuse_prob : Knobs → Meta → F → F
  reuse_prob c m now = aggregate (hazard c m now) (fmax (of_ℕ 1) m.leases)

  -- Where `score_raises` does not hold: the value of `nbytes` that return with probability `p`.
  unfoldable pub worth : Knobs → F → F → F → F → F
  worth c pressure p nbytes weight =
      let tokens = div nbytes (fmax (of_ℕ 1) c.kv_bytes_per_token) in
      let t_recompute = div tokens c.prefill_tokens_per_s in
      let t_restore = div nbytes (mul c.restore_gbs (of_ℕ (10 ^ 9))) in
      let saved = mul p (fmax (of_ℕ 0) (sub t_recompute t_restore)) in
      let gib = div nbytes (of_ℕ (1024 ^ 3)) in
      let rent = mul (mul (mul c.lambda_mem gib) pressure) (decimal 1 1) in
      let io = mul (mul (mul c.lambda_io gib) p) (decimal 1 2) in
      mul (sub (sub saved rent) io) weight

  -- Whether a division of `score` raises.
  unfoldable pub score_raises : Knobs → Bool
  score_raises c =
      eq c.prefill_tokens_per_s (of_ℕ 0) || eq (mul c.restore_gbs (of_ℕ (10 ^ 9))) (of_ℕ 0)

  -- `m["bytes"] or self._bytes_of(key)`
  unfoldable pub bytes_or : Knobs → F → F
  unfolding bytes_of
  bytes_or c bytes = if eq bytes (of_ℕ 0) then bytes_of c else bytes

  -- The score of a block with record `m`, at a pressure.
  unfoldable pub score_meta : Knobs → F → Meta → F → F
  score_meta c pressure m now = worth c pressure (reuse_prob c m now) (bytes_or c m.bytes) m.weight

  -- Tuples of two floats and a number.
  abbrev pub rank_lt : F × (F × ℕ) → F × (F × ℕ) → Bool
  rank_lt = lex lt eq (lex lt eq ltb)

module _ {K B : Type 0} ⦃e : Eq K⦄ ⦃fl : FloatOps⦄ where
  open fl use {F, of_ℕ, div}

  unfoldable pub pressure : Value K B → F
  pressure p = div (of_ℕ (length p.blocks)) (of_ℕ (max 1 p.cache_capacity))

  unfoldable pub score : Value K B → K → F → F
  score p key now = elim (lookup key p.meta) [
    | none ↦ of_ℕ 0
    | some m ↦ score_meta p.knobs (pressure p) m now
  ]

  -- The sort key (score, last_use, uses); a block without a record counts as never used.
  unfoldable pub rank : Value K B → F → K → F × (F × ℕ)
  rank p now key = (
    score p key now,
    (
      elim (lookup key p.meta) [ none ↦ of_ℕ 0 | some m ↦ m.last_use ],
      elim (lookup key p.meta) [ none ↦ 0 | some m ↦ m.uses ],
    ),
  )

  unfoldable pub candidates : (List K → List K) → Value K B → List K → List K
  candidates order p protected = filter (λ k. not (elem k protected)) (order p.evictable)

  unfoldable pub ranked : (List K → List K) → Value K B → List K → F → List K
  ranked order p protected now =
      sort (λ a b. rank_lt (rank p now a) (rank p now b)) (candidates order p protected)

  unfoldable pub remove_all : Value K B → List K → Value K B
  unfolding remove
  remove_all p [] = p
  remove_all p (k ∷ ks) = remove_all (remove p k) ks

  -- A block without a record is not scored.
  unfoldable pub ranking_raises : Value K B → List K → Bool
  ranking_raises p ks = score_raises p.knobs && any (λ k. is_some (lookup k p.meta)) ks

  unfoldable pub evict :
      (List K → List K) → Value K B → ℕ → List K → F → Result (Option (Dict K B) × Value K B)
  evict order p n protected now =
      if n == 0
      then ok (some [], p)
      else if ltb (length (candidates order p protected)) n
      then ok (none, p)
      else raise_if (ranking_raises p (candidates order p protected)) (do
        let victims = take n (ranked order p protected now)
        out ← items_at victims p.blocks
        ok (some out, remove_all p victims))

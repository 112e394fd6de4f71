-- ===== src/Policies/Raises/Never.antt =====
-- Where no call of a policy raises: leases agree with paths, and no rate is zero.
use adaptive_context_residen.Common.{
  any-none, ℕ, max, String, ◌^◌, ◌≡◌, refl, false, List, [], ◌∷◌, arith, inl, inr, Option-cases,
  string_eq, sum_by,
}
use adaptive_context_residen.Common.Dict.{Dict, lookup, values}
use adaptive_context_residen.Common.Result.{ok}
use adaptive_context_residen.Common.Select.{items_at_total}
use adaptive_context_residen.Floats.{FloatOps}
use adaptive_context_residen.Config.{
  CostModel, TierConfig, effective_gbs, restore_raises, recompute_raises as cost_raises,
}
use adaptive_context_residen.Index.Defs.{Key, key_eq, PrefixIndex}
use adaptive_context_residen.Index.Touch.{path_of}
use adaptive_context_residen.Index.Touch.Invariant.{IsLeased, known_of_agree}
use adaptive_context_residen.Policies.Probe.{
  Probe, path_bytes, biggest_path, chain_bytes, recompute_raises,
}
use adaptive_context_residen.Policies.Tier.{
  Entry, Kind, recency, frequency, oracle, fixed_ttl, continuum_ttl, adaptive_value, TierPolicy,
  expiry_raises,
}
use adaptive_context_residen.Policies.Take.{expire}
use adaptive_context_residen.Policies.Adaptive.{group}
use adaptive_context_residen.Policies.Evict.{unprotected}
use adaptive_context_residen.Policies.Raises.{
  density_raises, admit_raises, chain_raises, evict_raises,
}

module _ ⦃fl : FloatOps⦄ where
  open fl use {F, of_ℕ, mul, eq}

  -- No rate that the program divides by is zero.
  pub record HasRates (cost : CostModel) (tier : TierConfig) : Type 0 where
    pub prefill : eq cost.prefill_tokens_per_s (of_ℕ 0) ≡ false
    pub decode : eq cost.decode_tokens_per_s (of_ℕ 0) ≡ false
    pub bytes : eq cost.kv_bytes_per_token (of_ℕ 0) ≡ false
    pub bandwidth : eq (mul (effective_gbs tier) (of_ℕ (10 ^ 9))) (of_ℕ 0) ≡ false

  pub cost-NeverRaises :
      (cost : CostModel) (tier : TierConfig) → HasRates cost tier → cost_raises cost ≡ false
  unfolding cost_raises
  cost-NeverRaises cost tier r = r.prefill

  pub restore-NeverRaises :
      (cost : CostModel) (tier : TierConfig) (nbytes : ℕ)
      → HasRates cost tier
      → restore_raises tier nbytes ≡ false
  unfolding restore_raises
  restore-NeverRaises cost tier nbytes r = ground (arith, r.bandwidth)

  -- What a policy may rely on.
  pub record IsSound (pr : Probe) : Type 0 where
    pub leased : IsLeased pr.index
    pub rates : HasRates pr.cost pr.tier

  path_bytes_total :
      (ix : PrefixIndex) (s : String)
      → IsLeased ix
      → (n : ℕ) × (path_bytes ix (path_of ix s) ≡ ok n)
  unfolding path_bytes
  path_bytes_total ix s v =
      let (infos, read, same, held) =
        items_at_total (path_of ix s) ix.blocks (λ k m. known_of_agree ix s k v m) in
      (sum_by (λ x. x.1.nbytes) infos, rw read refl)

  biggest_path_total :
      (ix : PrefixIndex) (biggest : ℕ) (ss : List String)
      → IsLeased ix
      → (n : ℕ) × (biggest_path ix biggest ss ≡ ok n)
  unfolding biggest_path
  biggest_path_total ix biggest [] v = (biggest, refl)
  biggest_path_total ix biggest (s ∷ ss) v =
      let (total, e) = path_bytes_total ix s v in
      let (n, e') = biggest_path_total ix (max biggest total) ss v in (n, rw e e')

  chain_bytes_total :
      (pr : Probe) (key : Key) → IsLeased pr.index → (n : ℕ) × (chain_bytes pr key ≡ ok n)
  unfolding chain_bytes
  chain_bytes_total pr key v = elim (Option-cases (lookup key pr.index.blocks)) [
    | inl missing ↦ (0, rw (missing, chain_bytes) refl)
    | inr (info, found) ↦
        let (n, e) = biggest_path_total pr.index 0 info.refs v in (n, rw (found, chain_bytes) e)
  ]

  recompute-NeverRaises : (pr : Probe) → IsSound pr → recompute_raises pr ≡ false
  unfolding recompute_raises
  recompute-NeverRaises pr s =
      ground (arith, s.rates.bytes, cost-NeverRaises pr.cost pr.tier s.rates)

  pub expiry-NeverRaises :
      (kind : Kind) (key : Key) (pr : Probe) → IsSound pr → expiry_raises kind key pr ≡ false
  unfolding expiry_raises
  expiry-NeverRaises recency key pr s = refl
  expiry-NeverRaises frequency key pr s = refl
  expiry-NeverRaises oracle key pr s = refl
  expiry-NeverRaises (fixed_ttl _ _) key pr s = refl
  expiry-NeverRaises (adaptive_value _ _ _) key pr s = refl
  expiry-NeverRaises (continuum_ttl _ _ _) key pr s =
      let (n, e) = chain_bytes_total pr key s.leased in rw e (recompute-NeverRaises pr s)

  density-NeverRaises : (pr : Probe) (nbytes : ℕ) → IsSound pr → density_raises pr nbytes ≡ false
  unfolding density_raises
  density-NeverRaises pr nbytes s =
      ground (arith, recompute-NeverRaises pr s, restore-NeverRaises pr.cost pr.tier nbytes s.rates)

  pub admit-NeverRaises :
      (kind : Kind) (t : TierPolicy) (items : List (Key × ℕ)) (pr : Probe)
      → IsSound pr
      → admit_raises kind t items pr ≡ false
  unfolding admit_raises
  admit-NeverRaises recency t items pr s = refl
  admit-NeverRaises frequency t items pr s = refl
  admit-NeverRaises oracle t items pr s = refl
  admit-NeverRaises (fixed_ttl _ _) t items pr s = refl
  admit-NeverRaises (continuum_ttl _ _ _) t items pr s = refl
  admit-NeverRaises (adaptive_value _ _ _) t [] pr s = refl
  admit-NeverRaises (adaptive_value _ _ _) t (x ∷ xs) pr s =
      rw
        (
          any-none (λ y. density_raises pr y.1) (x ∷ xs) (λ y. density-NeverRaises pr y.1 s),
          any-none (λ (e : Entry). density_raises pr e.nbytes) (values t.entries)
              (λ e. density-NeverRaises pr e.nbytes s),
        )
        (ground arith)

  chain-NeverRaises : (pr : Probe) (chain : List Entry) → IsSound pr → chain_raises pr chain ≡ false
  unfolding chain_raises
  chain-NeverRaises pr chain s = ground (
    arith,
    any-none (λ e. density_raises pr e.nbytes) chain (λ e. density-NeverRaises pr e.nbytes s),
  )

  pub evict-NeverRaises :
      (kind : Kind) (protected : List Key) (now : F) (pr : Probe) (entries : Dict Key Entry)
      → IsSound pr
      → evict_raises kind protected now pr entries ≡ false
  unfolding evict_raises
  evict-NeverRaises recency protected now pr entries s = refl
  evict-NeverRaises frequency protected now pr entries s = refl
  evict-NeverRaises oracle protected now pr entries s = refl
  evict-NeverRaises (fixed_ttl _ _) protected now pr entries s = refl
  evict-NeverRaises (continuum_ttl _ _ _) protected now pr entries s = refl
  evict-NeverRaises (adaptive_value _ _ _) protected now pr entries s =
      any-none (chain_raises pr)
        (values (group now pr (unprotected protected (expire entries now)) []))
        (λ chain. chain-NeverRaises pr chain s)

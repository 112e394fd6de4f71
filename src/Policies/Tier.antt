-- ===== src/Policies/Tier.antt =====
-- `Entry` and `TierPolicy`: what a tier holds, and the bookkeeping that all policies share. A
-- subclass is a constructor of `Kind` with the fields that it adds.
use adaptive_context_residen.Common.{
  ℕ, ◌+◌, ◌^◌, max, String, Bool, false, ◌||◌, Option, none, some, List, [], ◌∷◌, if◌then◌else◌,
  ◌==◌, sum_by,
}
use adaptive_context_residen.Common.{string_eq}
use adaptive_context_residen.Common.Dict.{Dict, lookup, insert, erase, values}
use adaptive_context_residen.Common.Result.{Result, ok, exception, is_exception}
use adaptive_context_residen.Floats.{FloatOps, fmax, fmin}
use adaptive_context_residen.Index.Defs.{Key, key_eq}
use adaptive_context_residen.Policies.Probe.{
  Probe, recompute_seconds, recompute_raises, chain_bytes, session_eta,
}

module _ ⦃fl : FloatOps⦄ where
  open fl use {F, of_ℕ, decimal, infinity, add, mul, div}

  pub record Entry : Type 0 where
    pub key : Key
    pub nbytes : ℕ
    pub inserted_at : F
    pub last_touch : F
    pub uses : ℕ
    pub expires_at : F
    pub next_use : F

  pub data Kind : Type 0 where
    recency frequency oracle : Kind
    fixed_ttl : (base_s per_gib_s : F) → Kind
    continuum_ttl : (k min_s max_s : F) → Kind
    adaptive_value : (lambda_mem horizon_s : F) (priors : Dict String F) → Kind

  pub record TierPolicy : Type 0 where
    pub kind : Kind
    pub capacity : ℕ
    pub entries : Dict Key Entry

  default_priors : Dict String F
  default_priors =
      ("supervisor", decimal 5 1)
      ∷ ("patient", decimal 6 1)
      ∷ ("reviewer", decimal 2 1)
      ∷ ("rag", decimal 5 2)
      ∷ ("default", decimal 1 1)
      ∷ []

  -- `POLICIES`, with the defaults of the constructors' arguments.
  unfoldable pub policies : Dict String Kind
  unfolding default_priors
  policies =
      ("lru", recency)
      ∷ ("lfu", frequency)
      ∷ ("fixed_ttl", fixed_ttl (of_ℕ 180) (of_ℕ 60))
      ∷ ("continuum_ttl", continuum_ttl (of_ℕ 3) (of_ℕ 5) (of_ℕ 900))
      ∷ ("adaptive_value", adaptive_value (decimal 5 1) (of_ℕ 120) default_priors)
      ∷ ("oracle", oracle)
      ∷ []

  -- `none` stands for the `KeyError` of an unknown name.
  unfoldable pub build : String → ℕ → Option TierPolicy
  unfolding policies
  build name capacity_bytes = elim (lookup name policies) [
    | none ↦ none
    | some k ↦ some (record { kind = k; capacity = capacity_bytes; entries = [] })
  ]

  abbrev pub entries_of : TierPolicy → List Entry
  entries_of t = values t.entries

  unfoldable pub occupancy : TierPolicy → ℕ
  occupancy t = sum_by (λ e. e.nbytes) (values t.entries)

  unfoldable pub pressure : TierPolicy → F
  unfolding occupancy
  pressure t = div (of_ℕ (occupancy t)) (of_ℕ (max 1 t.capacity))

  unfoldable pub get : TierPolicy → Key → Option Entry
  get t key = lookup key t.entries

  -- `probe.chain_bytes(key) or nbytes`, of a call that returns.
  unfoldable pub bytes_or : ℕ → Result ℕ → ℕ
  bytes_or nbytes exception = nbytes
  bytes_or nbytes (ok total) = if total == 0 then nbytes else total

  -- The value of a call that returns; `expiry_raises` tells when it does not.
  unfoldable pub expiry : Kind → Key → ℕ → F → Probe → F
  expiry (fixed_ttl base_s per_gib_s) key nbytes now pr =
      add (add now base_s) (mul per_gib_s (div (of_ℕ nbytes) (of_ℕ (1024 ^ 3))))
  expiry (continuum_ttl k min_s max_s) key nbytes now pr =
      let bytes = bytes_or nbytes (chain_bytes pr key) in
      let ttl = fmin max_s (fmax min_s (mul k (recompute_seconds pr bytes))) in
      add (add now ttl) (session_eta pr key)
  expiry _ key nbytes now pr = infinity

  unfoldable pub expiry_raises : Kind → Key → Probe → Bool
  expiry_raises (continuum_ttl k min_s max_s) key pr =
      is_exception (chain_bytes pr key) || recompute_raises pr
  expiry_raises _ key pr = false

  -- `last_touch = now` and `uses += 1`
  abbrev pub touched : F → Entry → Entry
  touched now e = record e { last_touch = now; uses = e.uses + 1 }

  abbrev pub fresh : Key → ℕ → F → Entry
  fresh key nbytes now = record {
    key = key;
    nbytes = nbytes;
    inserted_at = now;
    last_touch = now;
    uses = 1;
    expires_at = infinity;
    next_use = infinity;
  }

  unfoldable pub insert_entry : TierPolicy → Key → ℕ → F → Probe → TierPolicy
  insert_entry t key nbytes now pr =
      let e : Entry = elim (lookup key t.entries) [
        | none ↦ fresh key nbytes now
        | some e ↦ touched now e
      ] in
      record t {
        entries = insert key (record e { expires_at = expiry t.kind key nbytes now pr }) t.entries;
      }

  unfoldable pub touch_one : F → Probe → TierPolicy → Key → TierPolicy
  touch_one now pr t key = elim (lookup key t.entries) [
    | none ↦ t
    | some e ↦ record t {
      entries =
          insert key (record (touched now e) { expires_at = expiry t.kind key e.nbytes now pr })
            t.entries;
    }
  ]

  unfoldable pub touch : TierPolicy → List Key → F → Probe → TierPolicy
  unfolding touch_one
  touch t [] now pr = t
  touch t (key ∷ ks) now pr = touch (touch_one now pr t key) ks now pr

  unfoldable pub remove : TierPolicy → Key → Option Entry × TierPolicy
  remove t key = (lookup key t.entries, record t { entries = erase key t.entries })

  unfoldable pub clear : TierPolicy → TierPolicy
  clear t = record t { entries = [] }

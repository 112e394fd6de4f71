-- ===== src/Vllm/Value.antt =====
-- src/acr/vllm/policy.py: `AcrValuePolicy`. `block.ref_cnt == 0` is the parameter `idle`; the order
-- in which Python iterates over the set `evictable` is the parameter `order` of `evict`.
pub mod Evict
pub mod Invariant
pub mod Laws
pub mod Touch
use adaptive_context_residen.Common.{
  ℕ, ◌+◌, ◌*◌, ◌^◌, max, min, String, Bool, true, false, not, ◌&&◌, Option, none, some, is_some,
  List, [], ◌∷◌, if◌then◌else◌, ltb, leb, ◌==◌, filter, length, take, Eq, ◌=?◌, string_eq,
}
use adaptive_context_residen.Common.Dict.{Dict, keys, lookup, insert, erase, elem, add, discard}
use adaptive_context_residen.Common.Keys.{lex}
use adaptive_context_residen.Common.Result.{Result, ok, ◌>>=◌, items_at}
use adaptive_context_residen.Common.Sort.{sort}
use adaptive_context_residen.Floats.{FloatOps, fmax, fmin}
use adaptive_context_residen.Vllm.Hints.{Hints, has_hints, Params, hints_of, role_of}

module _ ⦃fl : FloatOps⦄ where
  open fl use {F, of_ℕ, decimal}

  -- What the policy remembers of a block.
  pub record Meta : Type 0 where
    pub last_use : F
    pub uses : ℕ
    pub iat : F
    pub leases : F
    pub weight : F
    pub bytes : F

  -- The tuning knobs of `__init__`.
  pub record Knobs : Type 0 where
    pub horizon_s : F
    pub lambda_mem : F
    pub lambda_io : F
    pub role_weight : Dict String F
    pub kv_bytes_per_token : F
    pub prefill_tokens_per_s : F
    pub restore_gbs : F
    pub block_tokens : ℕ

  unfoldable pub default_knobs : Knobs
  default_knobs = record {
    horizon_s = of_ℕ 120;
    lambda_mem = of_ℕ 1;
    lambda_io = decimal 25 2;
    role_weight = ("patient", decimal 16 1) ∷ ("reviewer", of_ℕ 1) ∷ ("supervisor", of_ℕ 1) ∷ [];
    kv_bytes_per_token = of_ℕ 57753;
    prefill_tokens_per_s = of_ℕ 11100;
    restore_gbs = decimal 528 1;
    block_tokens = 816;
  }

  pub record Value (K B : Type 0) : Type 0 where
    pub cache_capacity : ℕ
    pub knobs : Knobs
    pub blocks : Dict K B
    pub evictable : List K
    pub meta : Dict K Meta

  unfoldable pub bytes_of : Knobs → F
  bytes_of c =
      if leb c.block_tokens 0 then of_ℕ 0 else fl.mul (of_ℕ c.block_tokens) c.kv_bytes_per_token

  -- What `touch` makes of the record of one block.
  unfoldable pub used : Meta → F → Meta
  used m now =
      let gap = fmax (of_ℕ 0) (fl.sub now m.last_use) in
      record m {
        iat =
            if fl.le m.iat (of_ℕ 0)
            then gap
            else fl.add (fl.mul (decimal 7 1) m.iat) (fl.mul (decimal 3 1) gap);
        last_use = now;
        uses = m.uses + 1;
      }

  -- `hints.get("session_lease_count", hints.get("leases", m["leases"]))`
  unfoldable pub lease_hint : Hints → F → F
  lease_hint h old = elim h.session_lease_count [
    | some n ↦ n
    | none ↦ elim h.leases [ some n ↦ n | none ↦ old ]
  ]

  -- The branch `if hints:` of `touch`.
  unfoldable pub hinted : Knobs → Hints → F → Meta → Meta
  unfolding lease_hint role_of
  hinted c h now m = record m {
    weight = elim (lookup (role_of h) c.role_weight) [ none ↦ of_ℕ 1 | some w ↦ w ];
    last_use = elim h.tool_eta_s [
      | none ↦ m.last_use
      | some eta ↦ fmin (fl.add m.last_use eta) now
    ];
    leases = lease_hint h m.leases;
  }

module _ {K B : Type 0} ⦃e : Eq K⦄ ⦃fl : FloatOps⦄ where
  open fl use {F, of_ℕ}

  unfoldable pub init : ℕ → Knobs → Value K B
  init cache_capacity knobs = record {
    cache_capacity = cache_capacity;
    knobs = knobs;
    blocks = [];
    evictable = [];
    meta = [];
  }

  unfoldable pub get : Value K B → K → Option B
  get p key = lookup key p.blocks

  unfoldable pub insert_block : (B → Bool) → Value K B → K → B → F → Value K B
  unfolding bytes_of
  insert_block idle p key block now = record p {
    blocks = insert key block p.blocks;
    evictable = if idle block then add key p.evictable else p.evictable;
    meta =
        if is_some (lookup key p.meta)
        then p.meta
        else insert key
            (record {
              last_use = now;
              uses = 0;
              iat = of_ℕ 0;
              leases = of_ℕ 1;
              weight = of_ℕ 1;
              bytes = bytes_of p.knobs;
            })
            p.meta;
  }

  unfoldable pub remove : Value K B → K → Value K B
  remove p key = record p {
    blocks = erase key p.blocks;
    evictable = discard key p.evictable;
    meta = erase key p.meta;
  }

  -- The body of the loop of `touch`.
  unfoldable pub touch_one : Hints → F → Value K B → K → Value K B
  unfolding used hinted
  touch_one h now p key = elim (lookup key p.meta) [
    | none ↦ p
    | some m ↦ record p {
      meta =
          insert key (if has_hints h then hinted p.knobs h now (used m now) else used m now) p.meta;
    }
  ]

  unfoldable pub touch_all : Hints → F → Value K B → List K → Value K B
  unfolding touch_one
  touch_all h now p [] = p
  touch_all h now p (key ∷ ks) = touch_all h now (touch_one h now p key) ks

  unfoldable pub touch : Value K B → List K → Params → F → Value K B
  unfolding touch_all hints_of
  touch p ks params now = touch_all (hints_of params) now p ks

  unfoldable pub mark_evictable : Value K B → K → Value K B
  mark_evictable p key = record p { evictable = add key p.evictable }

  unfoldable pub mark_non_evictable : Value K B → K → Value K B
  mark_non_evictable p key = record p { evictable = discard key p.evictable }

  unfoldable pub clear : Value K B → Value K B
  clear p = record p { blocks = []; evictable = []; meta = [] }

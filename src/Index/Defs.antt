-- ===== src/Index/Defs.antt =====
-- The state of `PrefixIndex`: block keys, what is known of a block, and the index.
use adaptive_context_residen.Common.{
  ℕ, ◌+◌, max, ◌≡◌, ◌↔◌, String, Bool, true, false, ◌&&◌, Option, none, some, List, [], arith,
  if◌then◌else◌, ◌==◌, Eq, ◌=?◌, =?_iff, string_eq,
}
use adaptive_context_residen.Common.Dict.{Dict}
use adaptive_context_residen.Floats.{FloatOps, fmax}
use adaptive_context_residen.Config.{CostModel}

-- The keys f"{root_id}:b{i}" and f"{session_id}:p{i}". Behind the last colon of the text stand a
-- letter and digits only, so the text determines the kind, the name and the position.
pub data Key : Type 0 where
  root : String → ℕ → Key
  private : String → ℕ → Key

unfoldable pub key_beq : Key → Key → Bool
key_beq (root a i) (root b j) = (a =? b) && (i == j)
key_beq (private a i) (private b j) = (a =? b) && (i == j)
key_beq _ _ = false

pub key_beq_iff : (a b : Key) → (key_beq a b ≡ true) ↔ (a ≡ b)
unfolding key_beq
key_beq_iff (root a i) (root b j) = ground (arith, =?_iff a b)
key_beq_iff (private a i) (private b j) = ground (arith, =?_iff a b)
key_beq_iff (root a i) (private b j) = ground arith
key_beq_iff (private a i) (root b j) = ground arith

instance abbrev pub key_eq : Eq Key
key_eq = record { beq = key_beq; beq_iff = key_beq_iff }

module _ ⦃fl : FloatOps⦄ where
  open fl use {F, of_ℕ, decimal, add as fadd, sub as fsub, mul as fmul, trunc, eq as feq}

  pub record BlockInfo : Type 0 where
    pub key : Key
    pub tokens : ℕ
    pub nbytes : ℕ
    pub depth : ℕ
    pub shared : Bool
    pub created_at : F
    pub last_use : F
    pub uses : ℕ
    pub iat_ema : Option F
    pub refs : List String
    pub roles : List String
    pub tier : Option String

  -- The new `iat_ema` after a gap.
  unfoldable pub smooth : Option F → F → F
  smooth none gap = gap
  smooth (some ema) gap = fadd (fmul (decimal 7 1) ema) (fmul (decimal 3 1) gap)

  -- `if self.last_use:` tests that it is not 0.0.
  unfoldable pub observe_use : F → BlockInfo → BlockInfo
  unfolding smooth
  observe_use now b = record b {
    iat_ema =
        if feq b.last_use (of_ℕ 0)
        then b.iat_ema
        else some (smooth b.iat_ema (fmax (of_ℕ 0) (fsub now b.last_use)));
    uses = b.uses + 1;
    last_use = now;
  }

  pub record PrefixIndex : Type 0 where
    pub block_tokens : ℕ
    pub cost : CostModel
    pub blocks : Dict Key BlockInfo
    pub session_path : Dict String (List Key)
    pub session_role : Dict String String
    pub session_last_seen : Dict String F
    pub invalidations : List Key

  unfoldable pub new_index : ℕ → CostModel → PrefixIndex
  new_index block_tokens cost = record {
    block_tokens = max 1 block_tokens;
    cost = cost;
    blocks = [];
    session_path = [];
    session_role = [];
    session_last_seen = [];
    invalidations = [];
  }

-- ===== src/Features/Rollout.antt =====
-- Who a feature is enabled for (feature.service.ts, `isEnabled` and `simpleHash`).
use Prim.Native.String.{String}
use nayft_backend.Common.{ℕ, ◌<◌, ◌≤◌, ◌≡◌, ◌⊎◌, Bool, true, false, List, [], ◌∷◌, some, arith}
use nayft_backend.Features.Registry.{Feature}
use nayft_backend.Features.Service.{
  word, hash_step, hash_from, simple_hash, UserContext, ok, is_listed, rollout_of, decide_enabled,
}

hash_from-lt : (h : ℕ) (cs : List ℕ) → h < word → hash_from h cs < word
unfolding hash_from
hash_from-lt h [] b = b
hash_from-lt h (c ∷ cs) b = hash_from-lt (hash_step h c) cs (omega arith)

-- The hash of any text is at most 2^31, so its remainder by 100 is a percentage.
pub simple_hash-le : (cs : List ℕ) → simple_hash cs ≤ 2147483648
unfolding simple_hash
simple_hash-le cs = ground (arith, hash_from-lt 0 cs (omega arith))

module _ (units : String → List ℕ) where
  -- Raising a positive rollout percentage keeps a feature enabled for everybody who has it.
  pub rollout_monotone :
      (key : String) (f : Feature) (context : UserContext) (p q : ℕ)
      → f.rollout_percentage ≡ some p
      → 0 < p
      → p ≤ q
      → decide_enabled units key (some f) context ≡ ok true
      → decide_enabled units key (some (record f { rollout_percentage = some q })) context ≡ ok true
  unfolding decide_enabled
  rollout_monotone key f context p q e pos le h = ground arith

  -- A feature that is not critical and has allowed users, segments or a positive rollout is decided
  -- by these alone: whether it is active makes no difference to anybody.
  pub is_active_ignored :
      (key : String) (f : Feature) (context : UserContext) (active : Bool)
      → f.critical ≡ false
      → (is_listed f.allowed_users ≡ true)
        ⊎ (is_listed f.segments ≡ true)
        ⊎ ((p : ℕ) × (rollout_of f.rollout_percentage ≡ some p))
      → decide_enabled units key (some (record f { is_active = active })) context
        ≡ decide_enabled units key (some f) context
  unfolding decide_enabled
  is_active_ignored key f context active e h = ground arith

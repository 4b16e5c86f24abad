-- ===== src/ProductCards/Lock.antt =====
-- redis/lock.ts, on the locks of product cards, and that a lock keeps others out until it expires.
use one_marketplace.Base.{
  ℕ, ◌+◌, ◌<◌, ◌≡◌, refl, Bool, true, false, Option, none, some, inl, inr, List, [], ◌∷◌, ltb, ◌==◌,
  ==_refl, ap, ◌∙◌, arith, Option-cases, All, if◌then◌else◌,
}

-- The key of a lock: the token that holds it, and when it expires.
pub record Lock : Type 0 where
  pub token : ℕ
  pub expires_at : ℕ

unfoldable pub live_lock : ℕ → Option Lock → Option Lock
live_lock now none = none
live_lock now (some lock) = if ltb now lock.expires_at then some lock else none

-- SET key token PX ttl NX
unfoldable pub set_if_none : ℕ → ℕ → ℕ → Option Lock → Bool × Option Lock
set_if_none now token ttl_ms none =
    (true, some (record { token = token; expires_at = now + ttl_ms }))
set_if_none now token ttl_ms (some lock) = (false, some lock)

-- acquireLock: whether the token has the lock now.
unfoldable pub acquire_lock : ℕ → ℕ → ℕ → Option Lock → Bool × Option Lock
acquire_lock now token ttl_ms key = set_if_none now token ttl_ms (live_lock now key)

-- The script of releaseLock
unfoldable pub delete_own : ℕ → Option Lock → Bool × Option Lock
delete_own token none = (false, none)
delete_own token (some lock) = if lock.token == token then (true, none) else (false, some lock)

unfoldable pub release_lock : ℕ → ℕ → Option Lock → Bool × Option Lock
release_lock now token key = delete_own token (live_lock now key)

-- What the holders of other tokens do to the key.
pub data Use : Type 0 where
  acquires : ℕ → ℕ → ℕ → Use
  releases : ℕ → ℕ → Use

unfoldable pub use_lock : Use → Option Lock → Option Lock
use_lock (acquires now token ttl_ms) key = (acquire_lock now token ttl_ms key).1
use_lock (releases now token) key = (release_lock now token key).1

unfoldable pub use_all : List Use → Option Lock → Option Lock
use_all [] key = key
use_all (u ∷ uses) key = use_all uses (use_lock u key)

-- A use by another token, before `limit`.
abbrev pub IsForeign : ℕ → ℕ → Use → Type 0
IsForeign own limit (acquires now token ttl_ms) = now < limit
IsForeign own limit (releases now token) = (now < limit) × ((token == own) ≡ false)

use_lock-keeps :
    (lock : Lock) (u : Use)
    → IsForeign lock.token lock.expires_at u
    → use_lock u (some lock) ≡ some lock
unfolding use_lock acquire_lock release_lock live_lock set_if_none delete_own
use_lock-keeps lock (acquires now token ttl_ms) early = ground arith
use_lock-keeps lock (releases now token) (early, other) = ground arith

use_all-keeps :
    (lock : Lock) (uses : List Use)
    → All (IsForeign lock.token lock.expires_at) uses
    → use_all uses (some lock) ≡ some lock
unfolding use_all
use_all-keeps lock [] foreign = refl
use_all-keeps lock (u ∷ uses) foreign =
    rw (use_lock-keeps lock u foreign.0) (use_all-keeps lock uses foreign.1)

acquire_lock-acquired :
    (now token ttl_ms : ℕ) (key : Option Lock)
    → (acquire_lock now token ttl_ms key).0 ≡ true
    → (acquire_lock now token ttl_ms key).1
      ≡ some (record { token = token; expires_at = now + ttl_ms })
unfolding acquire_lock set_if_none
acquire_lock-acquired now token ttl_ms key h = elim (Option-cases (live_lock now key)) [
  | inl e ↦ rw (e, set_if_none) refl
  | inr (lock, e) ↦ absurd (ground (arith, e, h))
]

acquire_lock-refused :
    (now token ttl_ms : ℕ) (lock : Lock)
    → now < lock.expires_at
    → (acquire_lock now token ttl_ms (some lock)).0 ≡ false
unfolding acquire_lock set_if_none live_lock
acquire_lock-refused now token ttl_ms lock early = ground arith

release_lock-own :
    (now : ℕ) (lock : Lock)
    → now < lock.expires_at
    → release_lock now lock.token (some lock) ≡ (true, none)
unfolding release_lock live_lock delete_own
release_lock-own now lock early = ground (arith, ==_refl lock.token)

-- A token that acquired the lock keeps it until it expires, however others try to acquire it and
-- release their own tokens: no other attempt to acquire it succeeds, and the token's own release does.
pub lock-IsHeld :
    (now own ttl_ms later other other_ttl_ms : ℕ) (key : Option Lock) (uses : List Use)
    → (acquire_lock now own ttl_ms key).0 ≡ true
    → All (IsForeign own (now + ttl_ms)) uses
    → later < now + ttl_ms
    → ((acquire_lock later other other_ttl_ms (use_all uses (acquire_lock now own ttl_ms key).1)).0
        ≡ false)
      × (release_lock later own (use_all uses (acquire_lock now own ttl_ms key).1) ≡ (true, none))
lock-IsHeld now own ttl_ms later other other_ttl_ms key uses acquired foreign early =
    let lock : Lock = record { token = own; expires_at = now + ttl_ms } in
    let kept =
      ap (use_all uses) (acquire_lock-acquired now own ttl_ms key acquired)
      ∙ use_all-keeps lock uses foreign in
    rw kept
      (acquire_lock-refused later other other_ttl_ms lock early, release_lock-own later lock early)

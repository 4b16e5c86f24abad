-- ===== src/Auth/Sessions.antt =====
-- The keys of a session in the denylist (auth/access-denylist.ts), under the writes to it.
use one_marketplace.Base.{
  ℕ, ◌+◌, ◌≤◌, ◌≡◌, sym, subst, Bool, true, not, inl, inr, ◌⊎◌, List, [], ◌∷◌, arith, ◌==◌, ==_refl,
  ==_iff, All, Bool-cases,
}
use one_marketplace.Base.Table.{select, exists}
use one_marketplace.Auth.Denylist.{
  Key, denied_token, revoked_session, Entry, RevokedSession, same_key, set_key, has_key, set_new,
  set_sessions,
}

same_key_trans : (a b c : Key) → same_key a b ≡ true → same_key a c ≡ true → same_key b c ≡ true
unfolding same_key
same_key_trans (denied_token a) (denied_token b) (denied_token c) h k =
    ground (arith, h, k, ==_iff a b, ==_iff a c, ==_refl c)
same_key_trans (revoked_session a) (revoked_session b) (revoked_session c) h k =
    ground (arith, h, k, ==_iff a b, ==_iff a c, ==_refl c)
same_key_trans _ _ _ h k = absurd (ground arith)

same_session : (a b : ℕ) → same_key (revoked_session a) (revoked_session b) ≡ true → a ≡ b
unfolding same_key
same_session a b h = ground (arith, ==_iff a b, h)

module _ (session : ℕ) where
  -- Every key of the session lasts until `limit`.
  abbrev pub Lasts : ℕ → Entry → Type 0
  Lasts limit e = same_key e.key (revoked_session session) ≡ true → limit ≤ e.expires_at

  abbrev pub is_present : List Entry → Bool
  is_present keys = exists (λ (e : Entry). same_key e.key (revoked_session session)) keys

  select-Lasts :
      (p : Entry → Bool) (limit : ℕ) (keys : List Entry)
      → All (Lasts limit) keys
      → All (Lasts limit) (select p keys)
  unfolding select
  select-Lasts p limit [] a = tt
  select-Lasts p limit (e ∷ keys) a = elim (Bool-cases (p e)) [
    | inl h ↦ rw h (a.0, select-Lasts p limit keys a.1)
    | inr h ↦ rw h (select-Lasts p limit keys a.1)
  ]

  -- Setting a key of any session, that lasts long enough where it is this one.
  pub set_key-Lasts :
      (key : Key) (expires_at limit : ℕ) (keys : List Entry)
      → (same_key key (revoked_session session) ≡ true → limit ≤ expires_at)
      → All (Lasts limit) keys
      → All (Lasts limit) (set_key key expires_at keys)
  unfolding set_key
  set_key-Lasts key expires_at limit keys late a = (late, select-Lasts _ limit keys a)

  present-select :
      (key : Key) (keys : List Entry)
      → is_present keys ≡ true
      → (same_key key (revoked_session session) ≡ true)
        ⊎ (is_present (select (λ e. not (same_key e.key key)) keys) ≡ true)
  unfolding exists select
  present-select key [] h = absurd (ground arith)
  present-select key (e ∷ keys) h =
      ground (arith, same_key_trans e.key key (revoked_session session), present-select key keys)

  -- A key that is set leaves the session present.
  pub present-set_key :
      (key : Key) (expires_at : ℕ) (keys : List Entry)
      → is_present keys ≡ true
      → is_present (set_key key expires_at keys) ≡ true
  unfolding exists set_key
  present-set_key key expires_at keys h = ground (arith, present-select key keys h)

  pub present-has_key :
      (now : ℕ) (keys : List Entry)
      → has_key now (revoked_session session) keys ≡ true
      → is_present keys ≡ true
  unfolding exists has_key
  present-has_key now [] h = absurd (ground arith)
  present-has_key now (e ∷ keys) h = ground (arith, present-has_key now keys)

  pub present_own :
      (expires_at : ℕ) (keys : List Entry)
      → is_present (set_key (revoked_session session) expires_at keys) ≡ true
  unfolding exists set_key same_key
  present_own expires_at keys = ground (arith, ==_refl session)

  -- The sessions that a sync restores: this one, where it is among them, for long enough.
  abbrev pub Restores : ℕ → ℕ → List RevokedSession → Type 0
  Restores limit now sessions =
      All (λ (s : RevokedSession). s.session_id ≡ session → limit ≤ now + s.ttl_seconds) sessions

  abbrev pub lists : List RevokedSession → Bool
  lists sessions = exists (λ (s : RevokedSession). s.session_id == session) sessions

  set_new-Lasts :
      (now limit : ℕ) (s : RevokedSession) (keys : List Entry)
      → (s.session_id ≡ session → limit ≤ now + s.ttl_seconds)
      → All (Lasts limit) keys
      → All (Lasts limit) (set_new now (revoked_session s.session_id) (now + s.ttl_seconds) keys)
  unfolding set_new
  set_new-Lasts now limit s keys late a =
      elim (Bool-cases (has_key now (revoked_session s.session_id) keys)) [
        | inl h ↦ rw h a
        | inr h ↦ rw h (
            set_key-Lasts (revoked_session s.session_id) (now + s.ttl_seconds) limit keys
              (λ same. late (same_session s.session_id session same)) a)
      ]

  set_new-present :
      (now : ℕ) (s : RevokedSession) (keys : List Entry)
      → (is_present keys ≡ true) ⊎ (s.session_id ≡ session)
      → is_present (set_new now (revoked_session s.session_id) (now + s.ttl_seconds) keys) ≡ true
  unfolding set_new
  set_new-present now s keys h =
      elim (Bool-cases (has_key now (revoked_session s.session_id) keys)) [
        | inl there ↦ rw there (elim h [
          | inl p ↦ p
          | inr same ↦
              present-has_key now keys
                (subst (λ i. has_key now (revoked_session i) keys ≡ true) same there)
        ])
        | inr missing ↦ rw missing (elim h [
          | inl p ↦ present-set_key (revoked_session s.session_id) (now + s.ttl_seconds) keys p
          | inr same ↦
              subst
                (λ i. is_present (set_key (revoked_session i) (now + s.ttl_seconds) keys) ≡ true)
                (sym same) (present_own (now + s.ttl_seconds) keys)
        ])
      ]

  pub set_sessions-Lasts :
      (now limit : ℕ) (sessions : List RevokedSession) (keys : List Entry)
      → Restores limit now sessions
      → All (Lasts limit) keys
      → All (Lasts limit) (set_sessions now sessions keys)
  unfolding set_sessions
  set_sessions-Lasts now limit [] keys r a = a
  set_sessions-Lasts now limit (s ∷ sessions) keys r a =
      set_sessions-Lasts now limit sessions _ r.1 (set_new-Lasts now limit s keys r.0 a)

  pub set_sessions-present :
      (now : ℕ) (sessions : List RevokedSession) (keys : List Entry)
      → (is_present keys ≡ true) ⊎ (lists sessions ≡ true)
      → is_present (set_sessions now sessions keys) ≡ true
  unfolding set_sessions exists
  set_sessions-present now [] keys (inl p) = p
  set_sessions-present now [] keys (inr l) = absurd (ground arith)
  set_sessions-present now (s ∷ sessions) keys (inl p) =
      set_sessions-present now sessions _ (inl (set_new-present now s keys (inl p)))
  set_sessions-present now (s ∷ sessions) keys (inr l) =
      elim (Bool-cases (s.session_id == session)) [
        | inl same ↦ set_sessions-present now sessions _ (
            inl (
              set_new-present now s keys (inr (ground (arith, ==_iff s.session_id session, same)))))
        | inr other ↦ set_sessions-present now sessions _ (inr (ground (arith, other, l)))
      ]

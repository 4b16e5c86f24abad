-- ===== src/Auth/Guarded.antt =====
-- What can happen to a denylist (auth/access-denylist.ts), and what of a session it keeps.
use one_marketplace.Base.{
  ℕ, ◌+◌, ◌-◌, ◌≤◌, ◌<◌, ◌≡◌, refl, true, false, inl, inr, ◌⊎◌, List, [], ◌∷◌, arith, ltb, ◌==◌,
  ==_iff, All, Bool-cases,
}
use one_marketplace.Base.Table.{exists}
use one_marketplace.Auth.Denylist.{
  access_token_ttl_seconds, denied_token, revoked_session, Entry, Denylist, RevokedSession, Reply,
  written, unwritten, unconfirmed, same_key, set_key, mark_out_of_sync, write, revoke_session, deny,
  set_sessions, finish_sync, restore,
}
use one_marketplace.Auth.Sessions.{
  Lasts, is_present, set_key-Lasts, present-set_key, Restores, lists, set_sessions-Lasts,
  set_sessions-present,
}

-- What happens to a denylist.
pub data Event : Type 0 where
  revokes : Reply → ℕ → ℕ → Event
  denies : Reply → ℕ → ℕ → ℕ → ℕ → Event
  restores : Reply → ℕ → List RevokedSession → ℕ → Event
  closes : Event
  loses_keys : Event

unfoldable pub happen : Event → Denylist → Denylist
happen (revokes reply now session) d = (revoke_session reply now session d).1
happen (denies reply now token expires_at session) d = (deny reply now token expires_at session d).1
happen (restores reply now sessions since) d = (restore reply now sessions since d).1
happen closes d = mark_out_of_sync d
happen loses_keys d = mark_out_of_sync (record d { keys = [] })

unfoldable pub happen_all : List Event → Denylist → Denylist
happen_all [] d = d
happen_all (e ∷ events) d = happen_all events (happen e d)

module _ (session limit start : ℕ) where
  -- The session's keys last until `limit`, and it has one or the list has lost its sync since the
  -- generation `start`.
  pub record IsGuarded (d : Denylist) : Type 0 where
    pub lasts : All (Lasts session limit) d.keys
    pub reached : start ≤ d.generation
    pub guarded : (is_present session d.keys ≡ true) ⊎ ((d.synced ≡ false) × (start < d.generation))

  -- A time that counts is late enough, and a sync either read the session among the revoked ones or
  -- began before it was revoked.
  abbrev pub IsSound : Event → Type 0
  IsSound (revokes reply now s) = limit ≤ now + access_token_ttl_seconds
  IsSound (denies reply now token expires_at s) = limit ≤ now + access_token_ttl_seconds
  IsSound (restores reply now sessions since) =
      Restores session limit now sessions × ((lists session sessions ≡ true) ⊎ (since ≤ start))
  IsSound closes = Unit
  IsSound loses_keys = Unit

  pub out_of_sync-IsGuarded :
      (keys : List Entry) (d : Denylist)
      → All (Lasts session limit) keys
      → start ≤ d.generation
      → IsGuarded (mark_out_of_sync (record d { keys = keys }))
  unfolding mark_out_of_sync
  out_of_sync-IsGuarded keys d a r = record {
    lasts = a;
    reached = omega (arith, r);
    guarded = inr (refl, omega (arith, r));
  }

  write-IsGuarded :
      (reply : Reply) (keys : List Entry) (d : Denylist)
      → IsGuarded d
      → All (Lasts session limit) keys
      → (is_present session d.keys ≡ true → is_present session keys ≡ true)
      → IsGuarded (write reply keys d).1
  unfolding write
  write-IsGuarded written keys d g a keep = record {
    lasts = a;
    reached = g.reached;
    guarded = elim g.guarded [ inl p ↦ inl (keep p) | inr lost ↦ inr lost ];
  }
  write-IsGuarded unwritten keys d g a keep = out_of_sync-IsGuarded d.keys d g.lasts g.reached
  write-IsGuarded unconfirmed keys d g a keep = out_of_sync-IsGuarded keys d a g.reached

  finish_sync-IsGuarded :
      (since : ℕ) (d : Denylist)
      → IsGuarded d
      → (is_present session d.keys ≡ true) ⊎ (since ≤ start)
      → IsGuarded (finish_sync since d)
  unfolding finish_sync
  finish_sync-IsGuarded since d g sound = elim (Bool-cases (d.generation == since)) [
    | inr other ↦ rw other g
    | inl same ↦ rw same (record {
      lasts = g.lasts;
      reached = g.reached;
      guarded = inl (elim sound [
        | inl p ↦ p
        | inr early ↦ elim g.guarded [
          | inl p ↦ p
          | inr lost ↦ absurd (ground (arith, ==_iff d.generation since, same, early, lost))
        ]
      ]);
    })
  ]

  revoked-keys :
      (now s : ℕ) (d : Denylist)
      → IsGuarded d
      → limit ≤ now + access_token_ttl_seconds
      → All
          (Lasts session limit)
          (set_key (revoked_session s) (now + access_token_ttl_seconds) d.keys)
  revoked-keys now s d g late =
      set_key-Lasts session (revoked_session s) (now + access_token_ttl_seconds) limit d.keys
        (λ same. late) g.lasts

  denied-IsGuarded :
      (reply : Reply) (now token expires_at s : ℕ) (d : Denylist)
      → IsGuarded d
      → limit ≤ now + access_token_ttl_seconds
      → IsGuarded (deny reply now token expires_at s d).1
  unfolding deny same_key
  denied-IsGuarded reply now token expires_at s d g late =
      let keys = set_key (revoked_session s) (now + access_token_ttl_seconds) d.keys in
      let all = revoked-keys now s d g late in
      let keep =
        present-set_key session (revoked_session s) (now + access_token_ttl_seconds) d.keys in
      elim (Bool-cases (ltb 0 (expires_at - now))) [
        | inr over ↦ rw over (write-IsGuarded reply keys d g all keep)
        | inl live ↦ rw live (
            write-IsGuarded reply (set_key (denied_token token) expires_at keys) d g
              (set_key-Lasts session (denied_token token) expires_at limit keys
                (λ same. absurd (ground arith)) all)
              (λ p. present-set_key session (denied_token token) expires_at keys (keep p)))
      ]

  restored-IsGuarded :
      (reply : Reply) (now since : ℕ) (sessions : List RevokedSession) (d : Denylist)
      → IsGuarded d
      → Restores session limit now sessions
      → (lists session sessions ≡ true) ⊎ (since ≤ start)
      → IsGuarded (restore reply now sessions since d).1
  unfolding restore exists write
  restored-IsGuarded reply now since [] d g r (inl l) = absurd (ground arith)
  restored-IsGuarded reply now since [] d g r (inr early) =
      finish_sync-IsGuarded since d g (inr early)
  restored-IsGuarded written now since (s ∷ sessions) d g r sound =
      let keys = set_sessions now (s ∷ sessions) d.keys in
      let all = set_sessions-Lasts session now limit (s ∷ sessions) d.keys r g.lasts in
      let keep = λ (p : is_present session d.keys ≡ true).
        set_sessions-present session now (s ∷ sessions) d.keys (inl p) in
      finish_sync-IsGuarded since (record d { keys = keys })
        (write-IsGuarded written keys d g all keep)
        (elim sound [
          | inl l ↦ inl (set_sessions-present session now (s ∷ sessions) d.keys (inr l))
          | inr early ↦ inr early
        ])
  restored-IsGuarded unwritten now since (s ∷ sessions) d g r sound =
      out_of_sync-IsGuarded d.keys d g.lasts g.reached
  restored-IsGuarded unconfirmed now since (s ∷ sessions) d g r sound =
      out_of_sync-IsGuarded (set_sessions now (s ∷ sessions) d.keys) d
        (set_sessions-Lasts session now limit (s ∷ sessions) d.keys r g.lasts) g.reached

  happen-IsGuarded : (e : Event) (d : Denylist) → IsSound e → IsGuarded d → IsGuarded (happen e d)
  unfolding happen revoke_session
  happen-IsGuarded (revokes reply now s) d late g =
      write-IsGuarded reply _ d g (revoked-keys now s d g late)
        (present-set_key session (revoked_session s) (now + access_token_ttl_seconds) d.keys)
  happen-IsGuarded (denies reply now token expires_at s) d late g =
      denied-IsGuarded reply now token expires_at s d g late
  happen-IsGuarded (restores reply now sessions since) d sound g =
      restored-IsGuarded reply now since sessions d g sound.0 sound.1
  happen-IsGuarded closes d sound g = out_of_sync-IsGuarded d.keys d g.lasts g.reached
  happen-IsGuarded loses_keys d sound g = out_of_sync-IsGuarded [] d tt g.reached

  pub happen_all-IsGuarded :
      (events : List Event) (d : Denylist)
      → All IsSound events
      → IsGuarded d
      → IsGuarded (happen_all events d)
  unfolding happen_all
  happen_all-IsGuarded [] d sound g = g
  happen_all-IsGuarded (e ∷ events) d sound g =
      happen_all-IsGuarded events (happen e d) sound.1 (happen-IsGuarded e d sound.0 g)

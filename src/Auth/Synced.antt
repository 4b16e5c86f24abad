-- ===== src/Auth/Synced.antt =====
-- What a sync of the denylist with the table of refresh tokens (auth/auth-maintenance.ts) brings.
use one_marketplace.Base.{
  ℕ, ◌+◌, ◌/◌, ◌≤◌, ◌<◌, ◌≡◌, sym, subst, ap, Bool, true, false, not, ◌&&◌, some, inl, inr, ◌⊎◌,
  List, [], ◌∷◌, ok, arith, ◌==◌, ==_iff, ==_refl, All, Bool-cases,
}
use one_marketplace.Base.Table.{exists}
use one_marketplace.Entities.{RefreshToken}
use one_marketplace.Auth.Denylist.{
  access_token_ttl_seconds, Denylist, RevokedSession, Reply, set_sessions, written, unwritten,
  unconfirmed, restore, is_denied, write, finish_sync,
}
use one_marketplace.Auth.Sessions.{
  Lasts, Restores, lists, is_present, set_sessions-Lasts, set_sessions-present,
}
use one_marketplace.Auth.Guarded.{IsGuarded, out_of_sync-IsGuarded}
use one_marketplace.Auth.Refused.{guarded-refused}
use one_marketplace.Auth.Maintenance.{
  is_recently_revoked, last_revoked, ttl_seconds_of, groups, find_recently_revoked_sessions,
  sync_revoked_sessions, window_ms,
}

-- A token of the family that was revoked recently.
abbrev has_recent : ℕ → ℕ → RefreshToken → Bool
has_recent query_ms family row =
    row.family_id == family && is_recently_revoked query_ms row.revoked_at

module _ (family revoked_at : ℕ) where
  -- The table has a token of the family that was revoked then.
  abbrev pub HasRevoked : List RefreshToken → Type 0
  HasRevoked [] = ⊥
  HasRevoked (row ∷ rows) =
      ((row.family_id ≡ family) × (row.revoked_at ≡ some revoked_at)) ⊎ HasRevoked rows

  last_revoked-le :
      (now : ℕ) (rows : List RefreshToken)
      → now < revoked_at + window_ms
      → HasRevoked rows
      → revoked_at ≤ last_revoked now family rows
  unfolding last_revoked is_recently_revoked
  last_revoked-le now [] h has = absurd has
  last_revoked-le now (row ∷ rows) h (inl (same, at)) = rw (at, same, ==_refl family) (ground arith)
  last_revoked-le now (row ∷ rows) h (inr has) = ground (arith, last_revoked-le now rows h has)

  ttl-reaches :
      (query_ms now last : ℕ)
      → query_ms < revoked_at + window_ms
      → query_ms / 1000 ≤ now
      → revoked_at ≤ last
      → revoked_at / 1000 + access_token_ttl_seconds ≤ now + ttl_seconds_of query_ms last
  unfolding ttl_seconds_of
  ttl-reaches query_ms now last h started le = omega (arith, h, started, le)

  groups-Restores :
      (query_ms now : ℕ) (all rows : List RefreshToken)
      → query_ms < revoked_at + window_ms
      → query_ms / 1000 ≤ now
      → HasRevoked all
      → Restores family
          (revoked_at / 1000 + access_token_ttl_seconds)
          now
          (groups query_ms all rows)
  unfolding groups
  groups-Restores query_ms now all [] h started has = tt
  groups-Restores query_ms now all (row ∷ rows) h started has =
      let rest = groups-Restores query_ms now all rows h started has in
      elim (Bool-cases (
        is_recently_revoked query_ms row.revoked_at
        && not (exists (has_recent query_ms row.family_id) rows))) [
          | inr skipped ↦ rw skipped rest
          | inl own ↦ rw own (
            (λ same. ttl-reaches query_ms now _ h started (
                subst (λ f. revoked_at ≤ last_revoked query_ms f all) (sym same)
                  (last_revoked-le query_ms all h has))),
            rest,
          )
        ]

  -- A family with a recent row has its group.
  lists-groups_of_recent :
      (query_ms : ℕ) (all rows : List RefreshToken)
      → exists (has_recent query_ms family) rows ≡ true
      → lists family (groups query_ms all rows) ≡ true
  unfolding groups exists
  lists-groups_of_recent query_ms all [] h = absurd (ground arith)
  lists-groups_of_recent query_ms all (row ∷ rows) h =
      let ih = lists-groups_of_recent query_ms all rows in
      elim (Bool-cases (row.family_id == family)) [
        | inr other ↦ ground (arith, other, h, ih)
        | inl same ↦
            let eq = (==_iff row.family_id family).0 same in
            let later = exists (has_recent query_ms family) rows in
            let own : exists (has_recent query_ms row.family_id) rows ≡ later =
              ap (λ f. exists (has_recent query_ms f) rows) eq in
            ground (arith, same, own, h, ih)
      ]

  recent_of_revoked :
      (query_ms : ℕ) (rows : List RefreshToken)
      → query_ms < revoked_at + window_ms
      → HasRevoked rows
      → exists (has_recent query_ms family) rows ≡ true
  unfolding exists is_recently_revoked
  recent_of_revoked query_ms [] h has = absurd has
  recent_of_revoked query_ms (row ∷ rows) h (inl (same, at)) =
      rw (at, same, ==_refl family) (ground arith)
  recent_of_revoked query_ms (row ∷ rows) h (inr has) =
      ground (arith, recent_of_revoked query_ms rows h has)

module _ (session limit : ℕ) where
  finish_sync-present :
      (since : ℕ) (d : Denylist)
      → All (Lasts session limit) d.keys
      → is_present session d.keys ≡ true
      → IsGuarded session limit d.generation (finish_sync since d)
  unfolding finish_sync
  finish_sync-present since d a p = elim (Bool-cases (d.generation == since)) [
    | inr other ↦ rw other (record { lasts = a; reached = omega arith; guarded = inl p })
    | inl same ↦ rw same (record { lasts = a; reached = omega arith; guarded = inl p })
  ]

  -- Whatever the reply, the session is present afterwards, or the list is out of sync.
  restore_listed-IsGuarded :
      (reply : Reply) (now since : ℕ) (sessions : List RevokedSession) (d : Denylist)
      → All (Lasts session limit) d.keys
      → Restores session limit now sessions
      → lists session sessions ≡ true
      → IsGuarded session limit d.generation (restore reply now sessions since d).1
  unfolding restore write exists
  restore_listed-IsGuarded reply now since [] d a r l = absurd (ground arith)
  restore_listed-IsGuarded written now since (s ∷ sessions) d a r l =
      let keys = set_sessions now (s ∷ sessions) d.keys in
      finish_sync-present since (record d { keys = keys })
        (set_sessions-Lasts session now limit (s ∷ sessions) d.keys r a)
        (set_sessions-present session now (s ∷ sessions) d.keys (inr l))
  restore_listed-IsGuarded unwritten now since (s ∷ sessions) d a r l =
      out_of_sync-IsGuarded session limit d.generation d.keys d a (omega arith)
  restore_listed-IsGuarded unconfirmed now since (s ∷ sessions) d a r l =
      out_of_sync-IsGuarded session limit d.generation (set_sessions now (s ∷ sessions) d.keys) d
        (set_sessions-Lasts session now limit (s ∷ sessions) d.keys r a) (omega arith)

-- A sync that reads a token of the session revoked less than an access token's lifetime before the
-- query: if the session's keys in the denylist that it writes to last until every access token of
-- the time of the revocation has expired, then afterwards, whatever the reply to the write and
-- whatever happened to the denylist since the sync began, the session is not found to be free before
-- that.
pub sync-refused :
    (reply : Reply) (query_ms now session revoked_at later token : ℕ) (tokens : List RefreshToken)
    (meanwhile : Denylist → Denylist) (d : Denylist)
    → HasRevoked session revoked_at tokens
    → query_ms < revoked_at + window_ms
    → query_ms / 1000 ≤ now
    → later < revoked_at / 1000 + access_token_ttl_seconds
    → All (Lasts session (revoked_at / 1000 + access_token_ttl_seconds)) (meanwhile d).keys
    → ¬ (
        is_denied later token session
          (sync_revoked_sessions reply query_ms now tokens meanwhile d).1
        ≡ ok false)
unfolding sync_revoked_sessions find_recently_revoked_sessions
sync-refused reply query_ms now session revoked_at later token tokens meanwhile d has h started soon
      a =
    let limit = revoked_at / 1000 + access_token_ttl_seconds in
    let sessions = groups query_ms tokens tokens in
    guarded-refused session limit (meanwhile d).generation later token
      (restore reply now sessions d.generation (meanwhile d)).1 soon
      (restore_listed-IsGuarded session limit reply now d.generation sessions (meanwhile d) a
        (groups-Restores session revoked_at query_ms now tokens tokens h started has)
        (lists-groups_of_recent session revoked_at query_ms tokens tokens
          (recent_of_revoked session revoked_at query_ms tokens h has)))

-- ===== src/Sessions/Kept.antt =====
-- That a session is there as long as it is used (services/session.service.ts).
use one_marketplace.Base.{
  ℕ, ◌+◌, ◌*◌, ◌<◌, ◌≡◌, refl, sym, ap, subst, ◌∙◌, true, false, not, Option, none, some, inl, inr,
  List, [], ◌∷◌, arith, Bool-cases, if◌then◌else◌,
}
use one_marketplace.Base.Text.{Text, text_eq, text_eq_iff, text_eq_refl}
use one_marketplace.Base.Table.{select}
use one_marketplace.Sessions.Service.{
  Session, StoredSession, session_ttl_seconds, set_session, get_session, create_session, touch,
}

pub data Step : Type 0 where
  creates : Text → Text → ℕ → Step
  touches : Text → ℕ → Step

unfoldable pub act : Step → List StoredSession → List StoredSession
act (creates token user_id now) store = (create_session token user_id now store).1
act (touches token now) store = (touch token now store).1

unfoldable pub act_all : List Step → List StoredSession → List StoredSession
act_all [] store = store
act_all (s ∷ steps) store = act_all steps (act s store)

abbrev pub ttl_ms : ℕ
ttl_ms = session_ttl_seconds * 1000

-- What is found of a token, and until when.
unfoldable found : Text → List StoredSession → Option (Session × ℕ)
found token [] = none
found token (s ∷ store) =
    let rest = found token store in
    if text_eq s.token token then some (s.session, s.expires_at) else rest

module _ (token : Text) where
  -- The last use of the token, from a use at `last`.
  unfoldable pub last_use : ℕ → List Step → ℕ
  last_use last [] = last
  last_use last (creates other user_id now ∷ steps) = last_use last steps
  last_use last (touches other now ∷ steps) =
      last_use (if text_eq other token then now else last) steps

  -- New sessions get other tokens, and each use of the token comes within a lifetime of the one
  -- before.
  abbrev pub InUse : ℕ → List Step → Type 0
  InUse last [] = Unit
  InUse last (creates other user_id now ∷ steps) = (text_eq other token ≡ false) × InUse last steps
  InUse last (touches other now ∷ steps) =
      ((text_eq other token ≡ true) → now < last + ttl_ms)
      × InUse (if text_eq other token then now else last) steps

  same_token : (a b : Text) → text_eq b a ≡ true → text_eq b token ≡ true → text_eq a token ≡ true
  same_token a b h k =
      (text_eq_iff a token).1 (sym ((text_eq_iff b a).0 h) ∙ (text_eq_iff b token).0 k)

  found-select :
      (other : Text) (store : List StoredSession)
      → text_eq other token ≡ false
      → found token (select (λ (s : StoredSession). not (text_eq s.token other)) store)
        ≡ found token store
  unfolding found select
  found-select other [] h = refl
  found-select other (s ∷ store) h =
      ground (arith, h, found-select other store h, same_token other s.token)

  touched-other :
      (other : Text) (now : ℕ) (store : List StoredSession)
      → text_eq other token ≡ false
      → found token (get_session now other store).1 ≡ found token store
  unfolding found get_session
  touched-other other now [] h = refl
  touched-other other now (s ∷ store) h =
      ground (arith, h, touched-other other now store h, same_token other s.token)

  touched-own :
      (now expires_at : ℕ) (session : Session) (store : List StoredSession)
      → found token store ≡ some (session, expires_at)
      → now < expires_at
      → ((get_session now token store).0 ≡ some session)
        × (found token (get_session now token store).1 ≡ some (session, now + ttl_ms))
  unfolding found get_session
  touched-own now expires_at session [] h live = absurd (ground arith)
  touched-own now expires_at session (s ∷ store) h live =
      elim (Bool-cases (text_eq s.token token)) [
        | inl own ↦ ground (arith, own, h, live)
        | inr other ↦ ground (arith, other, h, touched-own now expires_at session store, live)
      ]

  act-found :
      (last : ℕ) (session : Session) (s : Step) (steps : List Step) (store : List StoredSession)
      → InUse last (s ∷ steps)
      → found token store ≡ some (session, last + ttl_ms)
      → (next : ℕ) × (last_use last (s ∷ steps) ≡ last_use next steps)
        × InUse next steps
        × (found token (act s store) ≡ some (session, next + ttl_ms))
  unfolding last_use act create_session set_session touch found
  act-found last session (creates other user_id now) steps store active h =
      (last, refl, active.1, ground (arith, active.0, found-select other store active.0, h))
  act-found last session (touches other now) steps store active h =
      elim (Bool-cases (text_eq other token)) [
        | inl own ↦
            let same = (text_eq_iff other token).0 own in
            let kept = (touched-own now (last + ttl_ms) session store h (active.0 own)).1 in
            rw own (
              now,
              refl,
              rw own at active.1,
              subst (λ t. found token (get_session now t store).1 ≡ some (session, now + ttl_ms))
                  (sym same) kept,
            )
        | inr differs ↦
            rw differs
              (last, refl, rw differs at active.1, touched-other other now store differs ∙ h)
      ]

  act_all-found :
      (last : ℕ) (session : Session) (steps : List Step) (store : List StoredSession)
      → InUse last steps
      → found token store ≡ some (session, last + ttl_ms)
      → found token (act_all steps store) ≡ some (session, last_use last steps + ttl_ms)
  unfolding last_use act_all
  act_all-found last session [] store active h = h
  act_all-found last session (s ∷ steps) store active h =
      let (next, same, rest, kept) = act-found last session s steps store active h in
      act_all-found next session steps (act s store) rest kept
      ∙ ap (λ n. some (session, n + ttl_ms)) (sym same)

created-found :
    (token user_id : Text) (start : ℕ) (store : List StoredSession)
    → found token (create_session token user_id start store).1
      ≡ some ((create_session token user_id start store).0, start + ttl_ms)
unfolding found create_session set_session
created-found token user_id start store = rw (text_eq_refl token) refl

-- A session that is created, and used again and again within its lifetime, is answered as it was
-- created whenever it is used within a lifetime of the last use, whatever other sessions are created
-- and used, as long as their tokens are others.
pub create_session-touch :
    (token user_id : Text) (start now : ℕ) (steps : List Step) (store : List StoredSession)
    → InUse token start steps
    → now < last_use token start steps + ttl_ms
    → (touch token now (act_all steps (create_session token user_id start store).1)).0
      ≡ some (create_session token user_id start store).0
unfolding touch
create_session-touch token user_id start now steps store active soon =
    (touched-own token now _ _ _
      (act_all-found token start _ steps _ active (created-found token user_id start store)) soon).0

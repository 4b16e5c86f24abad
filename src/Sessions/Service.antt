-- ===== src/Sessions/Service.antt =====
-- services/session.service.ts with controllers/sessions.controller.ts. A token is a uuid, and times are
-- in milliseconds; a command that Redis does not answer is thrown.
use one_marketplace.Base.{
  ℕ, ◌+◌, ◌*◌, Bool, not, ◌&&◌, Option, none, some, List, [], ◌∷◌, Outcome, ok, err, ltb, ◌==◌,
  if◌then◌else◌,
}
use one_marketplace.Base.Text.{Text, is_id, number, text_eq}
use one_marketplace.Base.Table.{select, exists}
use one_marketplace.Entities.{Db}
use one_marketplace.Checkout.Input.{int8_max}

pub record Session : Type 0 where
  pub token : Text
  pub user_id : Text
  pub created_at : ℕ

abbrev pub session_ttl_seconds : ℕ
session_ttl_seconds = 1800

-- The key session:${token} with the session that its text parses to.
pub record StoredSession : Type 0 where
  pub token : Text
  pub session : Session
  pub expires_at : ℕ

-- SET key value EX ttl
unfoldable pub set_session : ℕ → Text → Session → List StoredSession → List StoredSession
set_session now token session store =
    record { token = token; session = session; expires_at = now + session_ttl_seconds * 1000 }
    ∷ select (λ (s : StoredSession). not (text_eq s.token token)) store

-- GETEX key EX ttl
unfoldable pub get_session : ℕ → Text → List StoredSession → Option Session × List StoredSession
get_session now token [] = (none, [])
get_session now token (s ∷ store) =
    let (found, rest) = get_session now token store in
    if text_eq s.token token && ltb now s.expires_at
    then (some s.session, record s { expires_at = now + session_ttl_seconds * 1000 } ∷ store)
    else (found, s ∷ rest)

unfoldable pub create_session : Text → Text → ℕ → List StoredSession → Session × List StoredSession
create_session token user_id now store =
    let session : Session = record { token = token; user_id = user_id; created_at = now } in
    (session, set_session now token session store)

unfoldable pub touch : Text → ℕ → List StoredSession → Option Session × List StoredSession
touch token now store = get_session now token store

-- UsersRepository.exists
unfoldable pub user_exists : ℕ → Db → Bool
user_exists id db = exists (λ u. u.id == id) db.users

pub data SessionFailure : Type 0 where
  user_not_found session_required internal : SessionFailure

-- POST /sessions: `up` says whether Redis answers. An id beyond bigint fails the query.
unfoldable pub post_session :
    Bool
    → Text
    → Text
    → ℕ
    → Db
    → List StoredSession
    → Outcome SessionFailure Session × List StoredSession
post_session up token user_id now db store =
    let (session, stored) = create_session token user_id now store in
    if is_id user_id && ltb int8_max (number user_id)
    then (err internal, store)
    else if not (is_id user_id && user_exists (number user_id) db)
    then (err user_not_found, store)
    else if up
    then (ok session, stored)
    else (err internal, store)

unfoldable pub me_response : Option Session → Outcome SessionFailure Session
me_response none = err session_required
me_response (some session) = ok session

-- GET /sessions/me: an empty header is as none.
unfoldable pub get_me :
    Bool
    → Option Text
    → ℕ
    → List StoredSession
    → Outcome SessionFailure Session × List StoredSession
get_me up none now store = (err session_required, store)
get_me up (some []) now store = (err session_required, store)
get_me up (some (c ∷ cs)) now store =
    let (found, after) = touch (c ∷ cs) now store in
    if up then (me_response found, after) else (err internal, store)

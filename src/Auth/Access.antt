-- ===== src/Auth/Access.antt =====
-- auth/access-authenticator.ts, auth/auth.guard.ts and auth/roles.guard.ts: which requests pass. The
-- verification of a signature is a parameter: the claims, when it is a token of the service.
use one_marketplace.Base.{
  ℕ, suc, Bool, true, false, not, ◌&&◌, ◌||◌, Option, none, some, List, [], ◌∷◌, Outcome, ok, err,
  ltb, leb, ◌==◌, if◌then◌else◌,
}
use one_marketplace.Base.Text.{Text, codes}
use one_marketplace.Entities.{UserRole, buyer, seller, admin}
use one_marketplace.Auth.Denylist.{Denylist, is_denied}
use one_marketplace.Auth.Service.{AuthenticatedUser}

pub data AccessFailure : Type 0 where
  rejected unavailable : AccessFailure

-- authenticate: the claims of a token are the user; a denylist that throws makes it unavailable.
unfoldable pub not_denied :
    AuthenticatedUser → Outcome (Unit {0}) Bool → Outcome AccessFailure AuthenticatedUser
not_denied user (err e) = err unavailable
not_denied user (ok denied) = if denied then err rejected else ok user

unfoldable pub authenticate :
    (Text → Option AuthenticatedUser)
    → ℕ
    → Denylist
    → Text
    → Outcome AccessFailure AuthenticatedUser
authenticate verify now d token = elim (verify token) [
  | none ↦ err rejected
  | some user ↦ not_denied user (is_denied now user.token_id user.session_id d)
]

unfoldable pub none_denied : Outcome (Unit {0}) Bool → Bool
none_denied (err e) = false
none_denied (ok denied) = not denied

unfoldable pub is_still_valid : ℕ → Denylist → AuthenticatedUser → Bool
is_still_valid now d user =
    not (leb user.expires_at now) && none_denied (is_denied now user.token_id user.session_id d)

-- [A-Za-z0-9_-]
unfoldable pub is_token_char : ℕ → Bool
is_token_char c =
    leb 65 c && leb c 90
    || (leb 97 c && leb c 122 || (leb 48 c && leb c 57 || (c == 95 || c == 45)))

-- The rest of a token, with so many dots before it; `filled` says that the part is not empty.
unfoldable pub is_token_from : ℕ → Bool → Text → Bool
is_token_from dots filled [] = dots == 2
is_token_from dots filled (c ∷ cs) =
    let is_dot = c == 46 in
    let rest = is_token_from (if is_dot then suc dots else dots) (not is_dot) cs in
    if is_dot then filled && (ltb dots 2 && rest) else is_token_char c && rest

unfoldable pub strip_prefix : Text → Text → Option Text
strip_prefix [] text = some text
strip_prefix (p ∷ ps) [] = none
strip_prefix (p ∷ ps) (c ∷ cs) = let rest = strip_prefix ps cs in if p == c then rest else none

-- BEARER.exec(header)
unfoldable pub bearer_token : Text → Option Text
bearer_token header = elim (strip_prefix (codes "Bearer ") header) [
  | none ↦ none
  | some token ↦ if is_token_from 0 false token then some token else none
]

pub data GuardFailure : Type 0 where
  unauthorized service_unavailable forbidden : GuardFailure

unfoldable pub guarded_user :
    Outcome AccessFailure AuthenticatedUser → Outcome GuardFailure AuthenticatedUser
guarded_user (ok user) = ok user
guarded_user (err rejected) = err unauthorized
guarded_user (err unavailable) = err service_unavailable

-- AuthGuard.canActivate; a missing header is the empty text.
unfoldable pub auth_guard :
    (Text → Option AuthenticatedUser) → ℕ → Denylist → Text → Outcome GuardFailure AuthenticatedUser
auth_guard verify now d header = elim (bearer_token header) [
  | none ↦ err unauthorized
  | some token ↦ guarded_user (authenticate verify now d token)
]

unfoldable pub same_role : UserRole → UserRole → Bool
same_role buyer buyer = true
same_role seller seller = true
same_role admin admin = true
same_role _ _ = false

unfoldable pub includes : UserRole → List UserRole → Bool
includes role [] = false
includes role (x ∷ xs) = same_role x role || includes role xs

-- RolesGuard.canActivate: no roles, or none at all, allow every request.
unfoldable pub roles_guard :
    List UserRole → Option AuthenticatedUser → Outcome GuardFailure (Unit {0})
roles_guard [] user = ok tt
roles_guard (r ∷ roles) none = err unauthorized
roles_guard (r ∷ roles) (some user) =
    if includes user.role (r ∷ roles) then ok tt else err forbidden

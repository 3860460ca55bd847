-- ===== src/Shared/Rbac/Roles.antt =====
-- Which roles a user has in effect, and which views that opens.
use mathlib.Core.List.{foldl}
use zk_dpp_royalty_protocol.Common.{
  String, ◌≡◌, refl, sym, ap, ◌∙◌, ◌↔◌, ◌⊎◌, inl, inr, true, ◌||◌, ◌&&◌, Option, none, some, List,
  [], ◌∷◌, ◌++◌, arith, eq_iff, ◌==◌, In, includes, includes_iff, Bool-cases,
}
use zk_dpp_royalty_protocol.Shared.Errors.{
  ZkDppError, access_denied, authorization_failed, get_http_status_from_code,
}
use zk_dpp_royalty_protocol.Shared.Rbac.{
  AuthUser, DppViewType, public, legit_interest, authority, dpp_view_roles, inherited, add_role,
  add_inherited, get_effective_roles, has_any_role, require_dpp_view_access,
}
use zk_dpp_royalty_protocol.Common.JsMap
use zk_dpp_royalty_protocol.Shared.Rbac.{check_view_roles}

some-injective : (e e' : ZkDppError) → ◌≡◌ {A = Option ZkDppError} (some e) (some e') → e ≡ e'
some-injective e e' h = ground (arith, h)

includes-append :
    (xs : List String) (x s : String) → includes (xs ++ x ∷ []) s ≡ (includes xs s || x == s)
includes-append [] x s = ground arith
includes-append (y ∷ xs) x s = ground (arith, includes-append xs x s)

includes-add_role :
    (xs : List String) (x s : String) → includes (add_role xs x) s ≡ (includes xs s || x == s)
unfolding add_role
includes-add_role xs x s = ground (arith, includes-append xs x s, eq_iff x s)

includes-add_inherited :
    (xs : List String) (role s : String)
    → includes (add_inherited xs role) s
      ≡ (includes xs s || (role == "authority" && ("auditor" == s || "brand" == s)))
unfolding add_inherited inherited
includes-add_inherited xs role s = elim (Bool-cases (role == "authority")) [
  | inl y ↦
      rw (y, inherited)
        (ground (
          arith,
          includes-add_role (add_role xs "auditor") "brand" s,
          includes-add_role xs "auditor" s,
        ))
  | inr n ↦ rw (n, inherited) (ground arith)
]

pub includes-add_roles :
    (rs xs : List String) (s : String)
    → includes (foldl add_role xs rs) s ≡ (includes xs s || includes rs s)
includes-add_roles [] xs s = ground arith
includes-add_roles (r ∷ rs) xs s =
    ground (arith, includes-add_roles rs (add_role xs r) s, includes-add_role xs r s)

includes-add_all_inherited :
    (rs xs : List String) (s : String)
    → includes (foldl add_inherited xs rs) s
      ≡ (includes xs s || (includes rs "authority" && ("auditor" == s || "brand" == s)))
includes-add_all_inherited [] xs s = ground arith
includes-add_all_inherited (r ∷ rs) xs s =
    ground
      (arith, includes-add_all_inherited rs (add_inherited xs r) s, includes-add_inherited xs r s)

pub includes-get_effective_roles :
    (rs : List String) (s : String)
    → includes (get_effective_roles rs) s
      ≡ (includes rs s || (includes rs "authority" && ("auditor" == s || "brand" == s)))
unfolding get_effective_roles
includes-get_effective_roles rs s =
    ground
      (arith, includes-add_all_inherited rs (foldl add_role [] rs) s, includes-add_roles rs [] s)

-- A user's effective roles are the user's own and, for an authority, those of auditors and brands.
pub get_effective_roles_iff :
    (rs : List String) (s : String)
    → (includes (get_effective_roles rs) s ≡ true)
      ↔ (In s rs ⊎ (In "authority" rs × In s ("auditor" ∷ "brand" ∷ [])))
get_effective_roles_iff rs s = (
  λ h. elim (Bool-cases (includes rs s)) [
    | inl own ↦ inl ((includes_iff rs s).0 own)
    | inr n ↦ inr (
      (includes_iff rs "authority").0 (ground (arith, includes-get_effective_roles rs s)),
      (includes_iff ("auditor" ∷ "brand" ∷ []) s).0
          (ground (arith, includes-get_effective_roles rs s)),
    )
  ],
  λ h. elim h [
    | inl own ↦ ground (arith, includes-get_effective_roles rs s, (includes_iff rs s).1 own)
    | inr (a, m) ↦ ground (
      arith,
      includes-get_effective_roles rs s,
      (includes_iff rs "authority").1 a,
      (includes_iff ("auditor" ∷ "brand" ∷ []) s).1 m,
    )
  ],
)

-- Who may see a view, by the roles in the user's token.
abbrev pub MayView : DppViewType → Option AuthUser → Type 0
MayView public user = Unit
MayView legit_interest none = ⊥
MayView legit_interest (some user) =
    In "auditor" user.roles ⊎ (In "brand" user.roles ⊎ In "authority" user.roles)
MayView authority none = ⊥
MayView authority (some user) = In "authority" user.roles

has_any-legit :
    (user : AuthUser)
    → has_any_role (some user) (dpp_view_roles legit_interest) ≡ (
        includes user.roles "auditor"
        || (includes user.roles "brand" || includes user.roles "authority"))
unfolding has_any_role
has_any-legit user = ground (
  arith,
  includes-get_effective_roles user.roles "auditor",
  includes-get_effective_roles user.roles "authority",
  includes-get_effective_roles user.roles "brand",
)

has_any-authority :
    (user : AuthUser)
    → has_any_role (some user) (dpp_view_roles authority) ≡ includes user.roles "authority"
unfolding has_any_role
has_any-authority user = ground (arith, includes-get_effective_roles user.roles "authority")

-- The roles that a view asks for are held exactly by those who may see it.
pub has_any_role_iff :
    (view : DppViewType) (user : Option AuthUser)
    → (has_any_role user (dpp_view_roles view) ≡ true) ↔ MayView view user
unfolding has_any_role
has_any_role_iff public user = (λ h. tt, λ h. refl)
has_any_role_iff legit_interest none = (λ h. absurd (cc h), λ h. absurd h)
has_any_role_iff authority none = (λ h. absurd (cc h), λ h. absurd h)
has_any_role_iff authority (some user) =
    rw (has_any-authority user) (includes_iff user.roles "authority")
has_any_role_iff legit_interest (some user) = rw (has_any-legit user) (
  λ h. elim (Bool-cases (includes user.roles "auditor")) [
    | inl a ↦ inl ((includes_iff user.roles "auditor").0 a)
    | inr n ↦ elim (Bool-cases (includes user.roles "brand")) [
      | inl b ↦ inr (inl ((includes_iff user.roles "brand").0 b))
      | inr m ↦ inr (inr ((includes_iff user.roles "authority").0 (ground arith)))
    ]
  ],
  λ h. elim h [
    | inl a ↦ ground (arith, (includes_iff user.roles "auditor").1 a)
    | inr (inl b) ↦ ground (arith, (includes_iff user.roles "brand").1 b)
    | inr (inr c) ↦ ground (arith, (includes_iff user.roles "authority").1 c)
  ],
)

abbrev pub AnswersForbidden : Option ZkDppError → Type 0
AnswersForbidden o = (e : ZkDppError) → o ≡ some e → get_http_status_from_code e.code ≡ 403

checked-some :
    (view : DppViewType) (user : AuthUser)
    → (check_view_roles view (some user) ≡ none)
      ↔ (has_any_role (some user) (dpp_view_roles view) ≡ true)
checked-some view user = (λ h. ground (arith, h), λ h. ground (arith, h))

code_of-refused :
    (e : ZkDppError) {message : String}
    → ◌≡◌ {A = Option ZkDppError}
        (some (record { code = access_denied; message = message }))
        (some e)
    → e.code ≡ access_denied
code_of-refused e h = ground (arith, h)

denied-status : get_http_status_from_code access_denied ≡ 403
unfolding get_http_status_from_code JsMap.get
denied-status = refl

unauthenticated-status : get_http_status_from_code authorization_failed ≡ 403
unfolding get_http_status_from_code JsMap.get
unauthenticated-status = refl

checked-forbidden :
    (view : DppViewType) (user : Option AuthUser) → AnswersForbidden (check_view_roles view user)
checked-forbidden view none = λ e h.
    ap (λ x. get_http_status_from_code x.code) (sym (some-injective _ _ h)) ∙ unauthenticated-status
checked-forbidden view (some user) = λ e h.
    elim (Bool-cases (has_any_role (some user) (dpp_view_roles view))) [
      | inl y ↦ absurd (ground (arith, y, h))
      | inr n ↦ ap get_http_status_from_code (code_of-refused e (rw n at h)) ∙ denied-status
    ]

-- The check before a view's handler lets a request pass exactly if the user may see the view by the
-- code's table of roles (everyone the public view; an auditor, an authority or a brand that for a
-- legitimate interest; an authority that for authorities), and answers every other request with 403.
pub require_dpp_view_access_iff :
    (view : DppViewType) (user : Option AuthUser)
    → ((require_dpp_view_access view user ≡ none) ↔ MayView view user)
      × ((e : ZkDppError)
          → require_dpp_view_access view user ≡ some e
          → get_http_status_from_code e.code ≡ 403)
unfolding require_dpp_view_access
require_dpp_view_access_iff public user = ((λ h. tt, λ h. refl), λ e h. absurd (cc h))
require_dpp_view_access_iff legit_interest none =
    ((λ h. absurd (cc h), λ h. absurd h), checked-forbidden legit_interest none)
require_dpp_view_access_iff authority none =
    ((λ h. absurd (cc h), λ h. absurd h), checked-forbidden authority none)
require_dpp_view_access_iff legit_interest (some user) = (
  (
    λ h. (has_any_role_iff legit_interest (some user)).0 ((checked-some legit_interest user).0 h),
    λ h. (checked-some legit_interest user).1 ((has_any_role_iff legit_interest (some user)).1 h),
  ),
  checked-forbidden legit_interest (some user),
)
require_dpp_view_access_iff authority (some user) = (
  (
    λ h. (has_any_role_iff authority (some user)).0 ((checked-some authority user).0 h),
    λ h. (checked-some authority user).1 ((has_any_role_iff authority (some user)).1 h),
  ),
  checked-forbidden authority (some user),
)

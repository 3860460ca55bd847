-- ===== src/Dpp/Routes/Views.antt =====
-- Who gets which view, by which route.
use zk_dpp_royalty_protocol.Common.{ℕ, String, ◌≡◌, refl, inl, inr, Option, none, Option-cases}
use zk_dpp_royalty_protocol.Predicates.{Registry}
use zk_dpp_royalty_protocol.Shared.Rbac.{AuthUser, require_dpp_view_access}
use zk_dpp_royalty_protocol.Shared.Rbac.Roles.{MayView, require_dpp_view_access_iff}
use zk_dpp_royalty_protocol.Dpp.Types.{AccessLevel, public, legit_interest, authority}
use zk_dpp_royalty_protocol.Dpp.Database.{Tables, Postgres}
use zk_dpp_royalty_protocol.Dpp.Routes.{
  ViewReply, access_to_dpp_view, view_handler, after_check, get_public_view,
  get_legit_interest_view, get_authority_view,
}

module _ (registry : Registry) (pg : Postgres) (now : ℕ) (db : Tables) (user : Option AuthUser)
    (id : String) where
  -- The reply of the route of a level.
  abbrev pub dedicated : AccessLevel → ViewReply
  dedicated public = get_public_view registry pg now db user id
  dedicated legit_interest = get_legit_interest_view registry pg now db user id
  dedicated authority = get_authority_view registry pg now db user id

  -- A reply that is right for a caller: one who may see the view gets what the handler answers, and
  -- one who may not gets no view but a status.
  pub record IsRight (level : AccessLevel) (denied : ℕ) (reply : ViewReply) : Type 0 where
    pub granted :
        MayView (access_to_dpp_view level) user
        → reply ≡ view_handler registry pg now db user id level
    pub refused :
        ¬ MayView (access_to_dpp_view level) user → (reply.dpp ≡ none) × (reply.code ≡ denied)

  after_check-IsRight :
      (level : AccessLevel)
      → IsRight level 403 (
          after_check registry pg now db user id level
            (require_dpp_view_access (access_to_dpp_view level) user))
  unfolding after_check
  after_check-IsRight level =
      let check = require_dpp_view_access_iff (access_to_dpp_view level) user in
      record {
        granted = λ may. rw (check.0.1 may, after_check) refl;
        refused = λ n.
            elim (Option-cases (require_dpp_view_access (access_to_dpp_view level) user)) [
              | inl h ↦ absurd (n (check.0.0 h))
              | inr (e, h) ↦ rw (h, after_check) (refl, check.1 e h)
            ];
      }

  -- The route of a view answers a caller who may see it by the code's table of roles (everyone the
  -- public view; an auditor, an authority or a brand that for a legitimate interest; an authority
  -- that for authorities) with what its handler makes of the product, and any other caller with 403
  -- and no view.
  pub dedicated-IsRight : (level : AccessLevel) → IsRight level 403 (dedicated level)
  unfolding get_public_view get_legit_interest_view get_authority_view
  dedicated-IsRight public = record { granted = λ h. refl; refused = λ n. absurd (n tt) }
  dedicated-IsRight legit_interest = after_check-IsRight legit_interest
  dedicated-IsRight authority = after_check-IsRight authority

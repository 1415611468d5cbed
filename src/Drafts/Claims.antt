-- ===== src/Drafts/Claims.antt =====
-- Which lines of a draft may be removed (frontend/src/features/drafts/model/draftClaims.ts). The
-- sentences of the reasons are left out.
use full_stack_resume.Common.{
  any-append, String, ◌≡◌, Bool, true, false, not, ◌&&◌, ◌||◌, Option, none, some, List, arith,
  ◌==◌, eq_iff, if◌then◌else◌, any, flat_map,
}
use full_stack_resume.Api.Documents.{
  DraftClaim, DraftSection, EditableDocument, ClaimStyle, outline_claims,
}
use full_stack_resume.Api.Documents
use full_stack_resume.Api.Documents.{is_pending}

pub data Reason : Type 0 where
  headline_line structural_line : Reason

pub data Removability : Type 0 where
  patch : Removability
  stays : Option Reason → Removability

-- `STRUCTURAL_STYLES.has(style)`
abbrev pub is_structural : ClaimStyle → Bool
is_structural Documents.heading = true
is_structural Documents.date = true
is_structural Documents.contact = true
is_structural Documents.headline = true
is_structural _ = false

abbrev pub has_id : String → List DraftClaim → Bool
has_id id claims = any (λ (c : DraftClaim). c.claim_id == id) claims

-- `removability`
unfoldable pub removability : DraftClaim → EditableDocument → Removability
removability claim draft =
    if claim.claim_id == draft.outline.headline.claim_id
    then stays (some headline_line)
    else if has_id claim.claim_id draft.outline.contacts
    then stays none
    else if not (is_pending claim.claim_type) && is_structural claim.style
    then stays (some structural_line)
    else patch

-- A line of the draft that may be removed stands in one of its sections, and unless it is pending its
-- style carries no structure.
pub removability-in_section :
    (claim : DraftClaim) (draft : EditableDocument)
    → has_id claim.claim_id (outline_claims draft.outline) ≡ true
    → removability claim draft ≡ patch
    → (has_id claim.claim_id (flat_map (λ (s : DraftSection). s.claims) draft.outline.sections)
        ≡ true)
      × ((is_pending claim.claim_type || not (is_structural claim.style)) ≡ true)
unfolding removability outline_claims
removability-in_section claim draft h r = ground (
  arith,
  eq_iff claim.claim_id draft.outline.headline.claim_id,
  eq_iff draft.outline.headline.claim_id claim.claim_id,
  any-append (λ (c : DraftClaim). c.claim_id == claim.claim_id) draft.outline.contacts
      (flat_map (λ (s : DraftSection). s.claims) draft.outline.sections),
)

-- ===== src/Api/Documents.antt =====
-- The CV document's outline and the patch that the autosave sends (openapi/types.ts,
-- frontend/src/api/documents.ts).
use full_stack_resume.Common.{String, Bool, true, false, Option, List, ◌∷◌, ◌++◌, flat_map}

pub data ClaimType : Type 0 where
  canonical composite derived reviewed pending headline : ClaimType

pub data ClaimStyle : Type 0 where
  paragraph heading date bullet item contact headline : ClaimStyle

pub record DraftClaim : Type 0 where
  pub claim_id : String
  pub claim_type : ClaimType
  pub fact_ids : List String
  pub pending_reason : Option String
  pub style : ClaimStyle
  pub text : String

pub record DraftSection : Type 0 where
  pub claims : List DraftClaim
  pub name : String

pub record DocumentOutline : Type 0 where
  pub contacts : List DraftClaim
  pub headline : DraftClaim
  pub sections : List DraftSection

pub record ClaimPatch : Type 0 where
  pub claim_id : String
  pub fact_ids : List String
  pub template_id : Option String
  pub template_version : Option String
  pub text : Option String

pub record ClaimAddition : Type 0 where
  pub section : String
  pub text : String

-- `claim_orders` is absent when there is none to send.
pub record DocumentPatch : Type 0 where
  pub claim_edits : List ClaimPatch
  pub claim_removals : List String
  pub claim_additions : List ClaimAddition
  pub claim_orders : Option (List (String × List String))

-- `claim.claim_type === "pending"`
abbrev pub is_pending : ClaimType → Bool
is_pending pending = true
is_pending _ = false

-- `outlineClaims`: every claim in reading order
unfoldable pub outline_claims : DocumentOutline → List DraftClaim
outline_claims outline =
    outline.headline
    ∷ (outline.contacts ++ flat_map (λ (s : DraftSection). s.claims) outline.sections)

-- The document once it has content (`EditableDocument` of drafts.types.ts).
pub record EditableDocument : Type 0 where
  pub id : String
  pub document_hash : String
  pub language : String
  pub outline : DocumentOutline

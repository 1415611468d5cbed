-- ===== src/Lib.antt =====
-- The front end of a CV engine (frontend/src): how a draft is edited and saved, and how each screen
-- reads the server's projection of an application. The server, in Python, is outside; its contract
-- (openapi/types.ts) gives the data.
--
-- Parts and files:
-- - Autosave: frontend/src/features/drafts/hooks/useDraftAutosave.ts. `Autosave.Buffer` has the four
--   collections of local changes, the patch they make, `restore` after a refusal and the copy in the
--   session's storage. `Autosave.Machine` has the hook: its refs are the record `Autosave`, and the
--   stretches of its handlers from one await to the next are the events of `step` (a change queued,
--   the timer, a flush, the answers of the server, the choices after a conflict). `Intent`,
--   `Progress` and `Invariant` are about histories of events, `Dirty` and `Unsaved` about the screen that
--   counts as dirty (useDraftEditing.ts).
-- - History: frontend/src/features/drafts/hooks/useDraftHistory.ts, undo and redo over outlines, with
--   the commands that they hand to the autosave (`Command`).
-- - Drafts: `Editing` is frontend/src/features/drafts/hooks/useDraftEditing.ts, which forwards the commands
--   of History to the autosave; `Editing.Refines` has its abstract editor. `RegenerationRun` is
--   useRegenerationDiff.ts. The rest is frontend/src/features/drafts/model: the requirements against the draft on screen
--   (requirementCoverage.ts), what a regeneration changed (regenerationDiff.ts) and which lines may be
--   removed (draftClaims.ts), and how far the posting is answered (draftFit.ts). `RenderDocument` is
--   frontend/src/features/drafts/hooks/useRenderDocument.ts.
-- - Operations: `Watch` is frontend/src/features/operations/hooks/useWatchedOperation.ts, `Overlay` the
--   session of frontend/src/features/operations/components/OperationOverlay.tsx. A render is an event
--   with the values that the screen has then; an effect runs when its dependencies differ from the last.
-- - Client: frontend/src/api/client.ts from the answer of `fetch` on, frontend/src/app/queryClient.ts and
--   the poll of frontend/src/api/operations.ts. `FieldErrors` are the refusals of single fields
--   (frontend/src/ui/errorMessages.ts, frontend/src/hooks/useServerFieldErrors.ts,
--   frontend/src/ui/ErrorCallout.tsx).
-- - Intake: frontend/src/features/application-intake/hooks, the stored draft (`Draft`) and the submission
--   with its duplicate check (`Submission`, with the duplicates of frontend/src/api/applications.ts).
-- - Decision: frontend/src/features/ready/components/decisionMarkdown.ts: the blocks of the decision
--   document, `Inline` the spans of a text, and `Reading` what the page reads off the sections.
-- - SyncedField: frontend/src/features/recruitment/hooks/useServerSyncedField.ts.
-- - Facts: frontend/src/features/facts/model (factPool.ts, factFilters.ts, factForm.ts).
-- - Search: the command palette of frontend/src/app/search, what it finds and its keys.
-- - Session: the place to return to of frontend/src/features/auth/session.ts.
-- - Toasts: frontend/src/ui/toast.ts.
-- - Settings: the form of frontend/src/features/settings/components, its save and the resolution of a conflict
--   (SettingsForm.tsx, SettingsConflict.tsx) over the settings of the cache, as a state machine.
-- - Preparation: frontend/src/features/preparation/model: `Destinations` (actionDestinations.ts), `Plan`
--   (workflowActionPlan.ts), `ViewState` (analysisViewState.ts), `Requirements`
--   (requirementGroups.ts), `Following` (autoDraft.ts), `Matching` (matchingConfiguration.ts) and `Stages` (workflowStages.ts, with
--   frontend/src/features/operations/model/operationLive.ts).
-- - Board: the query of the board in the address bar
--   (frontend/src/features/application-list/model/applicationListParams.ts), and the panel of what waits on
--   the reader (`Attention`, applicationListPresentation.ts there).
-- - Hub: the progress that the application's page shows, and its command forward
--   (frontend/src/features/application-detail/model/applicationHub.ts).
-- - Recruitment: the ladder of the application's page
--   (frontend/src/features/application-detail/model/recruitmentLadder.ts) and the lanes of the board
--   (frontend/src/features/application-list/model/recruitmentStages.ts). `Update` is the form of
--   frontend/src/features/recruitment/hooks/useRecruitmentUpdate.ts, over a server that is a parameter.
-- - Navigation: frontend/src/navigation/routePaths.ts, on which all destinations rest.
-- - Api: the data that is sent and received, and the reading of an analysis
--   (frontend/src/api/analyses.ts, classificationValues.ts).
-- - Common: lists, association lists for maps and sets, a stable sort, and texts.
--
-- A map or a set of JavaScript is a list in insertion order whose keys are distinct. All loops are
-- structural recursions; only the decimal text of an index takes fuel, as many rounds as the index, each
-- of which divides it by ten. The history is bounded by the limit of 50 entries and
-- groups typing within 900 milliseconds, both as in the source. Numbers are natural numbers: counts,
-- indices and times in milliseconds. `Date.parse` is a parameter of `ViewState`, `localeCompare` of `Board.Attention`, and the change to lower
-- case, which follows Unicode's tables, of `Facts`, `Search` and `Decision.Reading`.
--
-- Not modelled: rendering (React components), the query cache (a library), the server, the Hebrew labels
-- and sentences, and the rest of the features of the board, facts, recruitment and settings: their screens, the
-- reads and commands that only name a path, and the form and query libraries behind them.
pub mod Common
pub mod Api
pub mod Autosave
pub mod Board
pub mod Client
pub mod Decision
pub mod Drafts
pub mod Facts
pub mod History
pub mod Intake
pub mod Hub
pub mod Navigation
pub mod Operations
pub mod Preparation
pub mod Recruitment
pub mod Search
pub mod Session
pub mod Settings
pub mod SyncedField
pub mod Toasts

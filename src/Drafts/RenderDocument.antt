-- ===== src/Drafts/RenderDocument.antt =====
-- The render of an approved document
-- (frontend/src/features/drafts/hooks/useRenderDocument.ts). An event is a render with the values that the
-- editor has then and the effect that follows it, a press of the panel's button, or the end of the
-- command; the mutation's status is that of its library.
use mathlib.Core.Path.{subst}
use mathlib.Core.Bool.{or_assoc}
use full_stack_resume.Common.{
  String, ◌≡◌, refl, ◌⊎◌, inl, inr, Bool, true, false, not, ◌&&◌, ◌||◌, Option, none, some, List,
  [], ◌∷◌, ◌++◌, arith, eq_iff, if◌then◌else◌, Option-cases, present, any, All,
}
use full_stack_resume.Common.Text.{same_option}
use full_stack_resume.Navigation.{◌<>◌}
use full_stack_resume.Api.Applications.{PreparationState, ApplicationDetail}
use full_stack_resume.Api.Applications

-- What a render has; the projection is that of the Application whose document is rendered.
pub record RenderInput : Type 0 where
  pub auto_start : Bool
  pub detail : Option ApplicationDetail
  pub rendering : Bool

pub data MutationStatus : Type 0 where
  idle running succeeded failed : MutationStatus

-- The ref, the mutation's status, and the documents of the commands sent so far.
pub record RenderDocument : Type 0 where
  pub automatic_attempted : Option String
  pub status : MutationStatus
  pub commands : List String

abbrev pub is_approved : PreparationState → Bool
is_approved Applications.approved = true
is_approved _ = false

-- `documentHash`
unfoldable pub approved_hash : RenderInput → Option String
approved_hash i = elim i.detail [
  | none ↦ none
  | some d ↦ if is_approved d.preparation_state then d.document_hash else none
]

abbrev pub is_ready_input : RenderInput → Bool
is_ready_input i = elim i.detail [
  | none ↦ false
  | some d ↦ Applications.is_ready d.preparation_state
]

-- the `mutationFn` of `render`, which throws without an approved document
abbrev pub mutate : Option String → RenderDocument → RenderDocument
mutate none s = record s { status = failed }
mutate (some hash) s = record s { status = running; commands = s.commands ++ hash ∷ [] }

-- the command's key
unfoldable pub render_key : String → String
render_key hash = "render:" <> hash

-- the effect
unfoldable pub automatic : RenderInput → RenderDocument → RenderDocument
automatic i s =
    if not i.auto_start
      || not (present (approved_hash i))
      || same_option s.automatic_attempted (approved_hash i)
    then s
    else mutate (approved_hash i) (record s { automatic_attempted = approved_hash i })

abbrev pub is_running : MutationStatus → Bool
is_running running = true
is_running _ = false

abbrev pub is_idle : MutationStatus → Bool
is_idle idle = true
is_idle _ = false

-- `inFlight`
unfoldable pub in_flight : RenderInput → RenderDocument → Bool
in_flight i s =
    i.rendering || is_running s.status || i.auto_start && not (is_ready_input i) && is_idle s.status

pub data RenderEvent : Type 0 where
  rendered pressed : RenderInput → RenderEvent
  command_ended : (success : Bool) → RenderEvent

unfoldable pub render_step : RenderEvent → RenderDocument → RenderDocument
unfolding automatic
render_step (rendered i) s = automatic i s
render_step (pressed i) s = mutate (approved_hash i) s
render_step (command_ended success) s = record s { status = if success then succeeded else failed }

abbrev pub render_run : List RenderEvent → RenderDocument → RenderDocument
render_run [] s = s
render_run (e ∷ es) s = render_run es (render_step e s)

abbrev pub unrendered : RenderDocument
unrendered = record { automatic_attempted = none; status = idle; commands = [] }

-- A run in which nobody presses the button and no other document is approved.
abbrev pub IsOf : String → RenderEvent → Type 0
IsOf hash (rendered i) = (approved_hash i ≡ none) ⊎ (approved_hash i ≡ some hash)
IsOf hash (pressed i) = ⊥
IsOf hash (command_ended success) = Unit

-- A render that starts the document by itself.
abbrev pub starts : RenderEvent → Bool
starts (rendered i) = i.auto_start && present (approved_hash i)
starts _ = false

abbrev pub sent_once : Bool → String → List String
sent_once true hash = hash ∷ []
sent_once false hash = []

-- The ref and the commands of a document that has been started or not.
abbrev Once : Bool → String → RenderDocument → Type 0
Once b hash s =
    (s.commands ≡ sent_once b hash) × (s.automatic_attempted ≡ (if b then some hash else none))

step-Once :
    (e : RenderEvent) (hash : String) (b : Bool) (s : RenderDocument)
    → IsOf hash e
    → Once b hash s
    → Once (b || starts e) hash (render_step e s)
unfolding render_step
step-Once (command_ended success) hash true s h o = o
step-Once (command_ended success) hash false s h o = o
step-Once (pressed i) hash b s h o = absurd h
step-Once (rendered i) hash b s (inl h) o = rw h (ground (arith, o.0, o.1))
step-Once (rendered i) hash b s (inr h) o = rw h (ground (arith, o.0, o.1, eq_iff hash hash))

run-Once :
    (es : List RenderEvent) (hash : String) (b : Bool) (s : RenderDocument)
    → All (IsOf hash) es
    → Once b hash s
    → Once (b || any starts es) hash (render_run es s)
run-Once [] hash b s h o = ground (arith, o.0, o.1)
run-Once (e ∷ es) hash b s (h, hs) o =
    subst (λ c. Once c hash (render_run es (render_step e s)))
      (or_assoc b (starts e) (any starts es))
      (run-Once es hash (b || starts e) (render_step e s) hs (step-Once e hash b s h o))

abbrev pub IsRender : RenderEvent → Type 0
IsRender (rendered i) = Unit
IsRender _ = ⊥

running_kept :
    (es : List RenderEvent) (s : RenderDocument)
    → All IsRender es
    → s.status ≡ running
    → (render_run es s).status ≡ running
unfolding render_step
running_kept [] s h r = r
running_kept (rendered i ∷ es) s h r =
    running_kept es (automatic i s) h.1 (kept (approved_hash i) refl)
  where
    kept : (o : Option String) → approved_hash i ≡ o → (automatic i s).status ≡ running
    kept none e = rw e (ground (arith, r))
    kept (some x) e = rw e (ground (arith, r))
running_kept (pressed i ∷ es) s h r = absurd h.0
running_kept (command_ended b ∷ es) s h r = absurd h.0

not_ready_state :
    (st : PreparationState) (o : Option String) (hash : String)
    → (if is_approved st then o else none) ≡ some hash
    → Applications.is_ready st ≡ false
not_ready_state Applications.needs_analysis o hash k = refl
not_ready_state Applications.ready_to_draft o hash k = refl
not_ready_state Applications.draft_in_progress o hash k = refl
not_ready_state Applications.approved o hash k = refl
not_ready_state Applications.ready o hash k = cc

not_ready :
    (i : RenderInput) (hash : String) → approved_hash i ≡ some hash → is_ready_input i ≡ false
unfolding approved_hash
not_ready i hash h = elim (Option-cases i.detail) [
  | inl e ↦ cc
  | inr (d, e) ↦ rw e (not_ready_state d.preparation_state d.document_hash hash (rw e at h))
]

begins_running :
    (i : RenderInput) (hash : String)
    → i.auto_start ≡ true
    → approved_hash i ≡ some hash
    → (render_step (rendered i) unrendered).status ≡ running
unfolding render_step
begins_running i hash a e = rw e (ground (arith, a))

-- An approved document is rendered by itself exactly once: in any run of renders and ended commands of a
-- screen where nobody presses the button and no other document is approved, one command is sent, for that
-- document, if a render starts it and none if none does, whether the command succeeded or failed. And the
-- wait has no gap: from the render that starts it, before the effect, through whatever renders follow
-- until the command ends, the screen says that it is under way.
pub render_run-once :
    (es later : List RenderEvent) (hash : String) (i j : RenderInput)
    → All (IsOf hash) es
    → All IsRender later
    → i.auto_start ≡ true
    → approved_hash i ≡ some hash
    → ((render_run es unrendered).commands ≡ sent_once (any starts es) hash)
      × (in_flight i unrendered ≡ true)
      × (in_flight j (render_run (rendered i ∷ later) unrendered) ≡ true)
unfolding in_flight
render_run-once es later hash i j h r a e = (
  (run-Once es hash false unrendered h (refl, refl)).0,
  ground (arith, a, not_ready i hash e),
  ground (
    arith,
    running_kept later (render_step (rendered i) unrendered) r (begins_running i hash a e),
  ),
)

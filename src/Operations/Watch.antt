-- ===== src/Operations/Watch.antt =====
-- The watch over one application's live work (useWatchedOperation.ts). Its state and the memory of its
-- two effects are the record `Watch`; a render is an event that carries what the screen has read. An
-- effect runs when its dependencies differ from those that it last ran with. The refresh of the views
-- is a promise, which ends by an event with the number of its effect's run.
pub mod Laws
pub mod Waiting
use full_stack_resume.Common.{
  ℕ, suc, ◌<◌, String, Bool, true, false, not, ◌&&◌, Option, none, some, List, [], ◌∷◌, ◌==◌, leb,
  if◌then◌else◌, present, first_of_two,
}
use full_stack_resume.Api.Operations.{Operation}
use full_stack_resume.Api.Applications.{ApplicationDetail}
use full_stack_resume.Navigation.{◌<>◌}

pub record Watched : Type 0 where
  pub application_id : String
  pub id : String

-- What a render has: the address, the projection, and the answer of the watched operation's query.
pub record WatchInput : Type 0 where
  pub application_id : String
  pub detail : Option ApplicationDetail
  pub read : Option Operation
  pub read_failed : Bool

pub record Watch : Type 0 where
  pub watched : Option Watched
  pub projected_deps : Option (String × Option String)
  pub terminal_deps : Option (String × Option String)
  pub refreshing : Option (ℕ × String)
  pub runs : ℕ
  pub settled_key : Option String

abbrev pub unwatched : Watch
unwatched = record {
  watched = none;
  projected_deps = none;
  terminal_deps = none;
  refreshing = none;
  runs = 0;
  settled_key = none;
}

-- `projectedOperation`
abbrev pub projected_operation : Option ApplicationDetail → Option Operation
projected_operation none = none
projected_operation (some detail) = first_of_two detail.active_operation detail.latest_operation

abbrev pub id_of : Option Operation → Option String
id_of none = none
id_of (some operation) = some operation.id

-- `===` of two ids that may be absent
abbrev pub same_id : Option String → Option String → Bool
same_id none none = true
same_id (some a) (some b) = a == b
same_id _ _ = false

abbrev pub own_watch : String → Option Watched → Option String → Option String
own_watch app none projected = projected
own_watch app (some w) projected = if w.application_id == app then some w.id else projected

-- `watchedId`
unfoldable pub watched_id : WatchInput → Watch → Option String
watched_id i w = own_watch i.application_id w.watched (id_of (projected_operation i.detail))

-- the candidate: a read record whose id is the watched one, else the projection's
abbrev pub candidate : Option Operation → Option String → Option Operation → Option Operation
candidate none id projected = projected
candidate (some read) id projected = if same_id (some read.id) id then some read else projected

abbrev pub of_application : String → Option Operation → Option Operation
of_application app none = none
of_application app (some operation) =
    if operation.application_id == app then some operation else none

-- `operation`
unfoldable pub watched_operation : WatchInput → Watch → Option Operation
unfolding watched_id
watched_operation i w =
    of_application i.application_id
      (candidate i.read (watched_id i w) (projected_operation i.detail))

abbrev pub key_of : String → Option Operation → Option String
key_of app none = none
key_of app (some operation) =
    if operation.is_terminal then some (app <> ":" <> operation.id) else none

-- `terminalKey`
unfoldable pub terminal_key : WatchInput → Watch → Option String
unfolding watched_operation
terminal_key i w = key_of i.application_id (watched_operation i w)

-- `awaitingRecord`
unfoldable pub awaiting_record : WatchInput → Watch → Bool
unfolding watched_id watched_operation
awaiting_record i w =
    present (watched_id i w)
    && (not (same_id (id_of (watched_operation i w)) (watched_id i w)) && not i.read_failed)

-- `settled`
unfoldable pub is_settled : WatchInput → Watch → Bool
unfolding terminal_key
is_settled i w = present (terminal_key i w) && same_id w.settled_key (terminal_key i w)

abbrev pub same_deps : String × Option String → Option (String × Option String) → Bool
same_deps (app, id) none = false
same_deps (app, id) (some (app', id')) = app == app' && same_id id id'

abbrev pub watch_projected : String → Option String → Watch → Watch
watch_projected app none w = w
watch_projected app (some id) w = record w {
  watched = some (record { application_id = app; id = id });
}

-- the effect that retains the projection's record
unfoldable pub projected_effect : WatchInput → Watch → Watch
projected_effect i w =
    if same_deps (i.application_id, id_of (projected_operation i.detail)) w.projected_deps
    then w
    else watch_projected i.application_id (id_of (projected_operation i.detail)) (record w {
      projected_deps = some (i.application_id, id_of (projected_operation i.detail));
    })

-- the refresh of a key, by the run of a number
abbrev pub refresh_of : ℕ → Option String → Option (ℕ × String)
refresh_of run none = none
refresh_of run (some key) = some (run, key)

-- the effect that refreshes the views, and drops the refresh before it
unfoldable pub terminal_effect : String → Option String → Watch → Watch
terminal_effect app key w = if same_deps (app, key) w.terminal_deps then w else record w {
  terminal_deps = some (app, key);
  refreshing = refresh_of (suc w.runs) key;
  runs = suc w.runs;
}

pub data WatchEvent : Type 0 where
  rendered : WatchInput → WatchEvent
  refreshed : (run : ℕ) → WatchEvent
  watch : (application_id id : String) → WatchEvent

-- a refresh ends: only that of the effect's last run is current
abbrev pub settle : ℕ → Option (ℕ × String) → Watch → Watch
settle run none w = w
settle run (some (n, key)) w =
    if leb run n && leb n run then record w { refreshing = none; settled_key = some key } else w

unfoldable pub watch_step : WatchEvent → Watch → Watch
unfolding projected_effect terminal_effect
watch_step (rendered i) w =
    terminal_effect i.application_id (terminal_key i w) (projected_effect i w)
watch_step (refreshed run) w = settle run w.refreshing w
watch_step (watch app id) w = record w { watched = some (record { application_id = app; id = id }) }

abbrev pub watch_run : List WatchEvent → Watch → Watch
watch_run [] w = w
watch_run (e ∷ es) w = watch_run es (watch_step e w)

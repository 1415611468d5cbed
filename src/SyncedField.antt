-- ===== src/SyncedField.antt =====
-- A form's field that follows the server's value unless the reader is editing it
-- (frontend/src/features/recruitment/hooks/useServerSyncedField.ts). The effect runs for each render
-- whose values differ from the last ones'; an event is such a render.
mod Tests
use full_stack_resume.Common.{
  ◌+◌, ◌-◌, String, ◌≡◌, refl, ap, ◌∙◌, inl, inr, Bool, true, false, not, ◌&&◌, ◌||◌, Option, none,
  some, List, [], ◌∷◌, ◌++◌, arith, ◌==◌, eq_iff, if◌then◌else◌, Bool-cases, present, or_else, all,
}

-- What a render has.
pub record FieldInput : Type 0 where
  pub change_token : Option String
  pub is_dirty : Bool
  pub local_value : String
  pub server_value : String

pub record SyncedField : Type 0 where
  pub previous_server_version : String
  pub server_changed_while_dirty : Bool

-- `serverVersion`
abbrev pub server_version : FieldInput → String
server_version i = or_else i.change_token i.server_value

-- the first render
abbrev pub synced_field : FieldInput → SyncedField
synced_field i = record {
  previous_server_version = server_version i;
  server_changed_while_dirty = false;
}

-- whether the field holds an edit that differs from the server's value
abbrev pub is_edited : FieldInput → Bool
is_edited i = i.is_dirty && not (i.local_value == i.server_value)

-- the effect's new state
unfoldable pub reconcile : FieldInput → SyncedField → SyncedField
reconcile i s =
    if not i.is_dirty || i.local_value == i.server_value
    then record { previous_server_version = server_version i; server_changed_while_dirty = false }
    else record {
      previous_server_version = server_version i;
      server_changed_while_dirty =
          s.server_changed_while_dirty || not (s.previous_server_version == server_version i);
    }

-- the value that the effect passes to `onSync`, if any
unfoldable pub synced_value : FieldInput → Option String
synced_value i =
    if not i.is_dirty || i.local_value == i.server_value
    then (if i.is_dirty || not (i.local_value == i.server_value) then some i.server_value else none)
    else none

-- what the hook returns
abbrev pub is_changed_under : FieldInput → SyncedField → Bool
is_changed_under i s =
    s.server_changed_while_dirty && i.is_dirty && not (i.local_value == i.server_value)

abbrev pub reconcile_all : List FieldInput → SyncedField → SyncedField
reconcile_all [] s = s
reconcile_all (i ∷ is) s = reconcile_all is (reconcile i s)

abbrev all_version : String → List FieldInput → Bool
all_version v is = all (λ (i : FieldInput). server_version i == v) is

combine :
    (flag : Bool) (prev v : String) (is : List FieldInput)
    → ((flag || not (prev == v)) || not (all_version v is))
      ≡ (flag || not ((v == prev) && all_version prev is))
combine flag prev v is = elim (Bool-cases (prev == v)) [
  | inl h ↦ rw ((eq_iff prev v).0 h) (ground (arith, eq_iff v v))
  | inr h ↦ ground (arith, h, eq_iff prev v, eq_iff v prev)
]

reconcile-edited :
    (i : FieldInput) (s : SyncedField)
    → is_edited i ≡ true
    → reconcile i s ≡ record {
      previous_server_version = server_version i;
      server_changed_while_dirty =
          s.server_changed_while_dirty || not (s.previous_server_version == server_version i);
    }
unfolding reconcile
reconcile-edited i s h = ground (arith, h)

reconcile_lem :
    (is : List FieldInput) (s : SyncedField)
    → all is_edited is ≡ true
    → (reconcile_all is s).server_changed_while_dirty ≡ (
        s.server_changed_while_dirty
        || not (all (λ (i : FieldInput). server_version i == s.previous_server_version) is))
reconcile_lem [] s h = ground arith
reconcile_lem (i ∷ is) s h =
    ap (λ (t : SyncedField). (reconcile_all is t).server_changed_while_dirty)
      (reconcile-edited i s (ground arith))
    ∙ reconcile_lem is _ (ground arith)
    ∙ combine s.server_changed_while_dirty s.previous_server_version (server_version i) is

quiet_lem :
    (is : List FieldInput)
    → all is_edited is ≡ true
    → all (λ (i : FieldInput). not (present (synced_value i))) is ≡ true
unfolding synced_value
quiet_lem [] h = refl
quiet_lem (i ∷ is) h = ground (arith, quiet_lem is)

last_lem :
    (last : FieldInput) (is : List FieldInput)
    → all is_edited (is ++ last ∷ []) ≡ true
    → is_edited last ≡ true
last_lem last [] h = ground arith
last_lem last (i ∷ is) h = last_lem last is (ground arith)

-- A change under the reader's hands is told, and an edit is never overwritten: while the field holds an
-- edit that differs from the server's value, the effect passes nothing to the form, and once the edit
-- has begun on a server's version, the hook reports a change exactly if one of the renders since had
-- another version.
pub reconcile_all-reports :
    (start last : FieldInput) (is : List FieldInput)
    → all is_edited (is ++ last ∷ []) ≡ true
    → (all (λ (i : FieldInput). not (present (synced_value i))) (is ++ last ∷ []) ≡ true)
      × (is_changed_under last (reconcile_all (is ++ last ∷ []) (synced_field start))
          ≡ not (
              all (λ (i : FieldInput). server_version i == server_version start) (is ++ last ∷ [])))
reconcile_all-reports start last is h = (
  quiet_lem (is ++ last ∷ []) h,
  ground (arith, last_lem last is h, reconcile_lem (is ++ last ∷ []) (synced_field start) h),
)

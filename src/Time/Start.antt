-- ===== src/Time/Start.antt =====
-- The first lines of web/static/time.js: when the script applies itself to the document.
pub mod Once
use secureshare.Prelude.{Bool, true, false, List, [], ◌∷◌, ◌++◌, Option, none, some, if◌then◌else◌}
use secureshare.Time.{Calendar, Element, apply}

-- `document.readyState`: the parser has not reached the end, or it has.
pub data ReadyState : Type 0 where
  loading interactive complete : ReadyState

-- A document with the elements parsed so far.
pub record Document : Type 0 where
  pub ready_state : ReadyState
  pub elements : List Element
  pub listens : Bool  -- the script's listener for `DOMContentLoaded` is in place

pub data Event : Type 0 where
  -- The parser adds elements.
  parsed : List Element → Event
  -- It has reached the end: `DOMContentLoaded`.
  content_loaded : Event
  -- The rest of the page is there too.
  load : Event

module _ (cal : Calendar) where
  abbrev sweep : Document → Document
  sweep d = record d { elements = apply cal d.elements }

  -- The script in a document.
  unfoldable pub start_in : Document → Document
  start_in d = elim d.ready_state [
    | loading ↦ record d { listens = true }
    | interactive ↦ sweep d
    | complete ↦ sweep d
  ]

  -- Without a document, as in the script's test, it defines its functions and no more.
  unfoldable pub start : Option Document → Option Document
  start none = none
  start (some d) = some (start_in d)

  -- The listener, which is registered with `once`.
  unfoldable pub hear : Document → Document
  hear d = if d.listens then sweep (record d { listens = false }) else d

  abbrev read_on : List Element → Document → Document
  read_on es d = elim d.ready_state [
    | loading ↦ record d { elements = d.elements ++ es }
    | interactive ↦ d
    | complete ↦ d
  ]

  -- The parser reaches the end once.
  abbrev reach_end : Document → Document
  reach_end d = elim d.ready_state [
    | loading ↦ hear (record d { ready_state = interactive })
    | interactive ↦ d
    | complete ↦ d
  ]

  abbrev finish_load : Document → Document
  finish_load d = elim d.ready_state [
    | loading ↦ d
    | interactive ↦ record d { ready_state = complete }
    | complete ↦ d
  ]

  unfoldable pub step : Document → Event → Document
  step d (parsed es) = read_on es d
  step d content_loaded = reach_end d
  step d load = finish_load d

  unfoldable pub run : Document → List Event → Document
  run d [] = d
  run d (e ∷ es) = run (step d e) es

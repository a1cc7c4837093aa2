-- ===== src/Time/Start/Once.antt =====
-- The script of web/static/time.js reaches every element of the document, whenever it runs.
use secureshare.Prelude.{◌≡◌, refl, sym, ◌∙◌, ap, Bool, true, false, List, [], ◌∷◌, ◌++◌}
use secureshare.Time.{Calendar, Element, apply}
use secureshare.Time.Start.{
  ReadyState, loading, interactive, complete, Document, Event, parsed, content_loaded, load,
  start_in, hear, step, run,
}

abbrev pub is_loading : ReadyState → Bool
is_loading loading = true
is_loading _ = false

abbrev document : ReadyState → List Element → Bool → Document
document s elements listens = record { ready_state = s; elements = elements; listens = listens }

module _ (cal : Calendar) where
  -- Once the parser has reached the end, and nobody listens, nothing changes the elements.
  run-parsed :
      (elements : List Element) (s : ReadyState) (es : List Event)
      → is_loading s ≡ false
      → (run cal (document s elements false) es).elements ≡ elements
  unfolding run step
  run-parsed elements s [] h = refl
  run-parsed elements loading (e ∷ es) h = cc
  run-parsed elements interactive (parsed more ∷ es) h = run-parsed elements interactive es h
  run-parsed elements interactive (content_loaded ∷ es) h = run-parsed elements interactive es h
  run-parsed elements interactive (load ∷ es) h = run-parsed elements complete es refl
  run-parsed elements complete (parsed more ∷ es) h = run-parsed elements complete es h
  run-parsed elements complete (content_loaded ∷ es) h = run-parsed elements complete es h
  run-parsed elements complete (load ∷ es) h = run-parsed elements complete es h

  -- A document that is being parsed, with the listener in place and without.
  run-listening :
      (elements : List Element) (es : List Event)
      → is_loading (run cal (document loading elements false) es).ready_state ≡ false
      → (run cal (document loading elements true) es).elements
        ≡ apply cal (run cal (document loading elements false) es).elements
  unfolding run step hear
  run-listening elements [] h = cc
  run-listening elements (parsed more ∷ es) h = run-listening (elements ++ more) es h
  run-listening elements (content_loaded ∷ es) h =
      run-parsed (apply cal elements) interactive es refl
      ∙ sym (ap (apply cal) (run-parsed elements interactive es refl))
  run-listening elements (load ∷ es) h = run-listening elements es h

  run-start_in_at :
      (s : ReadyState) (elements : List Element) (listens : Bool) (es : List Event)
      → listens ≡ false
      → is_loading (run cal (document s elements listens) es).ready_state ≡ false
      → (run cal (start_in cal (document s elements listens)) es).elements
        ≡ apply cal (run cal (document s elements listens) es).elements
  unfolding start_in
  run-start_in_at loading elements false es h ended = run-listening elements es ended
  run-start_in_at interactive elements false es h ended =
      run-parsed (apply cal elements) interactive es refl
      ∙ sym (ap (apply cal) (run-parsed elements interactive es refl))
  run-start_in_at complete elements false es h ended =
      run-parsed (apply cal elements) complete es refl
      ∙ sym (ap (apply cal) (run-parsed elements complete es refl))
  run-start_in_at s elements true es h ended = cc

  -- Whenever the script runs in a document that its listener is not yet in, as soon as the parser has
  -- reached the end, the elements are those that the document has without the script, each with its
  -- time rendered; those too that were parsed after the script ran.
  pub run-start_in :
      (d : Document) (es : List Event)
      → d.listens ≡ false
      → is_loading (run cal d es).ready_state ≡ false
      → (run cal (start_in cal d) es).elements ≡ apply cal (run cal d es).elements
  run-start_in d es h ended = run-start_in_at d.ready_state d.elements d.listens es h ended

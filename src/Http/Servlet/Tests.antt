-- ===== src/Http/Servlet/Tests.antt =====
-- Servlets of src/http/servlet.cc.
use co_lib.Prelude.{ℕ, ◌≡◌, refl, List, [], ◌∷◌, some, true, codes, pos, is_prefix}
use co_lib.Http.Headers.{new_request}
use co_lib.Http.Message.{new_response}
use co_lib.Http.Servlet.{
  Servlet, function_servlet, Handled, handle_if, handle, first_match, or_else,
}
use co_lib.Http.Servlet.Changes.{
  Change, adds, adds_glob, dels, after, registered, living, last_default,
}
use co_lib.Http.Servlet.Globs.{handle-after}

-- A servlet that answers with a status.
abbrev answering : ℕ → Servlet
answering status = function_servlet (λ x. ((x.0, record x.1 { status = status }, x.2), pos 0))

abbrev changes : List Change
changes =
    dels (codes "/b")
    ∷ adds_glob (codes "/") (some (answering 202))
    ∷ adds_glob (codes "/b") (some (answering 201))
    ∷ adds (codes "/b") (some (answering 200))
    ∷ adds_glob (codes "/") (some (answering 203))
    ∷ []

abbrev asked : Handled
asked = (
  record (new_request 17 true) { path = codes "/b/c" },
  new_response 17 true,
  record { connected = true; arrivals = []; takes = []; sent = [] },
)

handle-after_example : handle is_prefix (after changes) asked ≡ (
  handle_if
      (or_else
        (registered asked.0.path changes)
        (or_else (first_match is_prefix asked.0.path (living changes [])) (last_default changes)))
      asked,
  pos 0,
)
handle-after_example = handle-after is_prefix changes asked

-- The pattern that was registered again comes last.
living_of_changes :
    living changes [] ≡ (codes "/b", some (answering 201)) ∷ (codes "/", some (answering 202)) ∷ []
living_of_changes = refl

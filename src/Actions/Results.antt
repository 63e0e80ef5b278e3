-- ===== src/Actions/Results.antt =====
-- What `_on_event` makes of the values that the handlers of a message returned.
use resilient_python_api.Prelude.{String, Option, none, some, if◌then◌else◌, List, [], ◌∷◌}
use resilient_python_api.Value.{Value, null, str, truthy}
use Prim.Native.String.{◌++◌ as ◌⧺◌}

-- A value that a handler returned: a StatusMessage with its text, a FunctionResult with its value, or
-- anything else.
pub data Returned : Type 0 where
  status_message : Value → Returned
  function_result : Value → Returned
  plain_value : Value → Returned

abbrev pub first_result : List Returned → Option Value
first_result [] = none
first_result (function_result v ∷ values) = some v
first_result (status_message t ∷ values) = first_result values
first_result (plain_value v ∷ values) = first_result values

-- The second loop: a plain value becomes the result if there is none, and the others are kept.
unfoldable pub take_result : Option Value → List Returned → Option Value × List Returned
take_result result [] = (result, [])
take_result none (plain_value v ∷ values) = take_result (some v) values
take_result none (status_message t ∷ values) =
    let (result, kept) = take_result none values in (result, status_message t ∷ kept)
take_result none (function_result v ∷ values) =
    let (result, kept) = take_result none values in (result, function_result v ∷ kept)
take_result (some r) (value ∷ values) =
    let (result, kept) = take_result (some r) values in (result, value ∷ kept)

-- The third loop: status messages, and texts as status messages.
abbrev pub function_statuses : List Returned → List Value
function_statuses [] = []
function_statuses (function_result v ∷ values) = function_statuses values
function_statuses (status_message t ∷ values) = t ∷ function_statuses values
function_statuses (plain_value (str s) ∷ values) = str s ∷ function_statuses values
function_statuses (plain_value _ ∷ values) = function_statuses values

-- The loop over the values of a custom action: all but None and FunctionResults.
abbrev pub action_statuses : List Returned → List Value
action_statuses [] = []
action_statuses (function_result v ∷ values) = action_statuses values
action_statuses (status_message t ∷ values) = t ∷ action_statuses values
action_statuses (plain_value null ∷ values) = action_statuses values
action_statuses (plain_value v ∷ values) = v ∷ action_statuses values

-- if not status_messages: status_messages.append(StatusMessage(text))
abbrev pub or_default : String → List Value → List Value
or_default text [] = str text ∷ []
or_default text (v ∷ vs) = v ∷ vs

-- function_result and status_messages, for an ActionMessage and for a FunctionMessage
unfoldable pub action_outcome : List Returned → Option Value × List Value
action_outcome values =
    (none, or_default "No handler returned a result for this action" (action_statuses values))

unfoldable pub function_outcome : List Returned → Option Value × List Value
unfolding take_result
function_outcome values =
    let (result, kept) = take_result (first_result values) values in
    (result, or_default "Completed" (function_statuses kept))

-- str(status): the text or "", and where that is no text what `repr` gives, a parameter.
abbrev pub shown_text : (repr : Value → String) → Value → String
shown_text repr (str s) = s
shown_text repr v = repr v

abbrev pub status_text : (repr : Value → String) → Value → String
status_text repr v = if truthy v then shown_text repr v else ""

-- "\n".join(texts)
abbrev pub join_lines : List String → String
join_lines [] = ""
join_lines (s ∷ []) = s
join_lines (s ∷ t ∷ ts) = s ⧺ ("\n" ⧺ join_lines (t ∷ ts))

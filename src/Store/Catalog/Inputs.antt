-- ===== src/Store/Catalog/Inputs.antt =====
-- The inputs of a deployment's scripts (crates/core/src/domain/script.rs, `resolve_inputs`), and
-- those that a script is given on a host (crates/api/agent/src/scripts.rs, `script_inputs`).
mod Fit
pub mod Resolved
mod Tests
use imaged.Base.{
  ℕ, Bool, true, false, not, ◌&&◌, Option, none, some, List, [], ◌∷◌, ◌++◌, ◌==◌, if◌then◌else◌,
  any, find,
}
use imaged.Base.Assoc.{Assoc, or_default}
use imaged.Base.Assoc
use imaged.Base.Sorting.{less_text}
use imaged.Text.{Text, text, decimal}
use imaged.Error.{
  Result, ok, err, AppError, invalid_argument, failed_precondition, ◌>>=◌, ◌>>◌, ensure,
}
use imaged.Script.{ScriptInput, InputValues, ResolvedInputs, same_text}
use imaged.Script.Validation.{CheckError, check, check_message, value_from}
use imaged.Store.Hosts.{Host}
use imaged.Store.Catalog.{Script}

-- `BTreeMap::insert`.
unfoldable pub insert_value : Text → Text → InputValues → InputValues
insert_value name value [] = (name, value) ∷ []
insert_value name value ((m, v) ∷ values) =
    let rest = insert_value name value values in
    if same_text m name
    then (name, value) ∷ values
    else if less_text name m
    then (name, value) ∷ (m, v) ∷ values
    else (m, v) ∷ rest

-- `scripts.iter().flat_map(|s| &s.inputs)`.
abbrev pub declared_by : List Script → List ScriptInput
declared_by [] = []
declared_by (s ∷ scripts) = s.inputs ++ declared_by scripts

abbrev declaration : List ScriptInput → Text → Option ScriptInput
declaration declared name = find (λ i. same_text i.name name) declared

abbrev unknown_input : Text → AppError
unknown_input name = invalid_argument (text "no script declares input `" ++ (name ++ text "`"))

-- A name that is given must be declared, shared or per machine as it is given.
abbrev check_given : Bool → Text → Option ScriptInput → Text → Result (Unit {0})
check_given per_machine wrong none name = err (unknown_input name)
check_given per_machine wrong (some input) name =
    ensure (if per_machine then input.per_machine else not input.per_machine)
      (invalid_argument (text "input `" ++ (name ++ wrong)))

abbrev check_names : Bool → Text → List ScriptInput → InputValues → Result (Unit {0})
check_names per_machine wrong declared [] = ok tt
check_names per_machine wrong declared (entry ∷ values) =
    check_given per_machine wrong (declaration declared entry.0) entry.0
    >> check_names per_machine wrong declared values

abbrev check_machines : List ScriptInput → List Host → Assoc InputValues → Result (Unit {0})
check_machines declared hosts [] = ok tt
check_machines declared hosts ((host_id, values) ∷ machines) =
    ensure (any (λ h. h.id == host_id) hosts) (
      invalid_argument
        (text "host " ++ (decimal host_id ++ text " is not part of this deployment")))
    >> (check_names true (text "` is shared by all machines") declared values
        >> check_machines declared hosts machines)

abbrev agrees : ScriptInput → Option ScriptInput → Bool
agrees input none = true
agrees input (some first) = if first.per_machine then input.per_machine else not input.per_machine

abbrev check_declared : List ScriptInput → List ScriptInput → Result (Unit {0})
check_declared declared [] = ok tt
check_declared declared (input ∷ inputs) =
    ensure (agrees input (declaration declared input.name)) (
      invalid_argument
        (text "input `" ++ (input.name ++ text "` is declared both shared and per machine")))
    >> check_declared declared inputs

abbrev or_empty : Option InputValues → InputValues
or_empty none = []
or_empty (some values) = values

-- The values among which an input's own is looked for.
abbrev pub source_of : ResolvedInputs → ℕ → ScriptInput → InputValues
source_of inputs host_id input =
    if input.per_machine then or_empty (Assoc.get host_id inputs.per_machine) else inputs.shared

module _ (is_number : Text → Bool) where
  abbrev checked : (Text → AppError) → Option CheckError → Result (Unit {0})
  checked refuse none = ok tt
  checked refuse (some e) = err (refuse (check_message e))

  -- One turn of the loop of `resolve_inputs` over the inputs: `refuse` has the error of a reason.
  abbrev add_value :
      (Text → AppError) → ScriptInput → Option Text → InputValues → Result InputValues
  add_value refuse input (some value) values =
      checked refuse (check is_number input value) >> ok (insert_value input.name value values)
  add_value refuse input none values =
      ensure (not input.required) (refuse (text "input `" ++ (input.name ++ text "` is required")))
      >> ok values

  -- The loop of `resolve_inputs` over the inputs, each with the values among which it looks for its own.
  unfoldable pub add_values :
      (Text → AppError)
      → (ScriptInput → InputValues)
      → List ScriptInput
      → InputValues
      → Result InputValues
  unfolding insert_value
  add_values refuse source [] values = ok values
  add_values refuse source (input ∷ inputs) values =
      add_value refuse input (value_from input (source input)) values
      >>= add_values refuse source inputs

  abbrev pub on_host : Host → Text → AppError
  on_host host reason = invalid_argument (host.name ++ (text ": " ++ reason))

  unfoldable pub resolve_hosts :
      List ScriptInput → ResolvedInputs → List Host → Assoc InputValues → Result (Assoc InputValues)
  unfolding add_values
  resolve_hosts declared inputs [] resolved = ok resolved
  resolve_hosts declared inputs (host ∷ hosts) resolved =
      add_values (on_host host) (source_of inputs host.id) declared [] >>= λ values.
      resolve_hosts declared inputs hosts (Assoc.insert host.id values resolved)

  unfoldable pub resolve_inputs :
      List Script → List Host → ResolvedInputs → Result (Assoc InputValues)
  unfolding resolve_hosts
  resolve_inputs scripts hosts inputs =
      let declared = declared_by scripts in
      check_names false (text "` is set per machine") declared inputs.shared
      >> (check_machines declared hosts inputs.per_machine
          >> (check_declared declared declared >> resolve_hosts declared inputs hosts []))

  abbrev pub stale : Script → Text → AppError
  stale script reason = failed_precondition (
      text "script `"
      ++ (script.name
          ++ (text "` no longer fits the inputs stored with this task: "
              ++ (reason ++ text "; start a new deployment"))))

  -- One turn of the loop of `script_inputs`.
  abbrev give_input :
      (Text → AppError) → ScriptInput → Option Text → InputValues → Result InputValues
  give_input stale input (some value) inputs =
      checked stale (check is_number input value) >> ok (insert_value input.name value inputs)
  give_input stale input none inputs =
      if input.required
      then err (stale (text "input `" ++ (input.name ++ text "` is required")))
      else ok inputs

  -- The loop of `script_inputs`, over a script's own inputs and the values stored for it.
  unfoldable pub give_inputs :
      (Text → AppError) → InputValues → List ScriptInput → InputValues → Result InputValues
  unfolding insert_value
  give_inputs stale values [] inputs = ok inputs
  give_inputs stale values (input ∷ rest) inputs =
      give_input stale input (value_from input values) inputs >>= give_inputs stale values rest

  unfoldable pub script_inputs : Script → InputValues → Result InputValues
  unfolding give_inputs
  script_inputs script values = give_inputs (stale script) values script.inputs []

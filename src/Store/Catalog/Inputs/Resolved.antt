-- ===== src/Store/Catalog/Inputs/Resolved.antt =====
-- What a deployment's inputs are worth to its scripts (crates/core/src/domain/script.rs,
-- crates/api/agent/src/scripts.rs).
use mathlib.Core.List.{Memᴰ}
use mathlib.Core.Path.{subst, fun_ext}
use imaged.Base.{
  ℕ, Bool, true, false, Option, none, some, List, All, [], ◌∷◌, ◌==◌, ==→eq, ==_refl, ◌≡◌, refl,
  sym, ap, ◌∙◌, inl, inr, Bool-cases, arith,
}
use imaged.Base.Assoc.{Assoc, get-insert}
use imaged.Base.Assoc
use imaged.Text.{Text}
use imaged.Error.{ok, AppError, bind_ok, ok_injective, ◌>>=◌}
use imaged.Script.{ScriptInput, InputValues, ResolvedInputs, lookup}
use imaged.Script.Validation.{CheckError, check, value_from}
use imaged.Script.Validation
use imaged.Base.Sublists.{All_mono, All-left, All-right}
use imaged.Store.Hosts.{Host}
use imaged.Store.Catalog.{Script}
use imaged.Store.Catalog.Inputs
use imaged.Store.Catalog.Inputs.Fit.{
  IsFit, Found, unrepeated_names, add_values-Found, add_values-ok,
}

-- Looking for an input among values that have its own gives its own.
or_else-again :
    (o d : Option Text)
    → Validation.or_else (Validation.given (Validation.or_else (Validation.given o) d)) d
      ≡ Validation.or_else (Validation.given o) d
or_else-again none none = refl
or_else-again none (some []) = refl
or_else-again none (some (b ∷ bs)) = refl
or_else-again (some []) none = refl
or_else-again (some []) (some []) = refl
or_else-again (some []) (some (b ∷ bs)) = refl
or_else-again (some (b ∷ bs)) d = refl

value_from-again :
    (i : ScriptInput) (values after : InputValues)
    → lookup i.name after ≡ value_from i values
    → value_from i after ≡ value_from i values
unfolding Validation.value_from
value_from-again i values after e =
    ap (λ o. Validation.or_else (Validation.given o) i.default_value) e
    ∙ or_else-again (lookup i.name values) i.default_value

-- One turn of the agent's loop is one of the deployment's.
give_input_lem :
    (is_number : Text → Bool) (refuse : Text → AppError) (i : ScriptInput) (v : Option Text)
    (values : InputValues)
    → Inputs.give_input is_number refuse i v values ≡ Inputs.add_value is_number refuse i v values
give_input_lem is_number refuse i (some v) values = refl
give_input_lem is_number refuse i none values = ground arith

give_inputs_lem :
    (is_number : Text → Bool) (refuse : Text → AppError) (source : InputValues)
    (inputs : List ScriptInput) (values : InputValues)
    → Inputs.give_inputs is_number refuse source inputs values
      ≡ Inputs.add_values is_number refuse (λ i. source) inputs values
unfolding Inputs.give_inputs Inputs.add_values
give_inputs_lem is_number refuse source [] values = refl
give_inputs_lem is_number refuse source (i ∷ inputs) values =
    ap (λ r. r >>= Inputs.give_inputs is_number refuse source inputs)
      (give_input_lem is_number refuse i (value_from i source) values)
    ∙ ap (λ k. Inputs.add_value is_number refuse i (value_from i source) values >>= k)
        (fun_ext (give_inputs_lem is_number refuse source inputs))

-- A script whose inputs were found has them on the host.
script_inputs-ok :
    (is_number : Text → Bool) (source : ScriptInput → InputValues) (refuse : Text → AppError)
    (script : Script) (values : InputValues)
    → All (Found is_number refuse source values) script.inputs
    → (given : InputValues) × (Inputs.script_inputs is_number script values ≡ ok given)
unfolding Inputs.script_inputs
script_inputs-ok is_number source refuse script values v =
    rw (give_inputs_lem is_number (Inputs.stale is_number script) values script.inputs []) (
      add_values-ok is_number (Inputs.stale is_number script) (λ i. values) script.inputs []
        (All_mono script.inputs
          (λ i f. subst (IsFit is_number i) (sym (value_from-again i (source i) values f.1)) f.0)
          v))

All-declared :
    (P : ScriptInput → Type 0) (scripts : List Script) (script : Script)
    → All P (Inputs.declared_by scripts)
    → Memᴰ script scripts
    → All P script.inputs
All-declared P [] script v m = elim m [ ]
All-declared P (s ∷ scripts) script v (Memᴰ.head e) =
    subst (λ (x : Script). All P x.inputs) (sym e)
      (All-left P s.inputs (Inputs.declared_by scripts) v)
All-declared P (s ∷ scripts) script v (Memᴰ.tail m) =
    All-declared P scripts script (All-right P s.inputs (Inputs.declared_by scripts) v) m

module _ (is_number : Text → Bool) (declared : List ScriptInput) (inputs : ResolvedInputs) where
  -- The values that a host is given.
  record IsResolved (id : ℕ) (resolved : Assoc InputValues) : Type 0 where
    values : InputValues
    found : Assoc.get id resolved ≡ some values
    refuse : Text → AppError
    made : Inputs.add_values is_number refuse (Inputs.source_of inputs id) declared [] ≡ ok values

  resolve_hosts-kept :
      (hosts : List Host) (r resolved : Assoc InputValues) (id : ℕ)
      → Inputs.resolve_hosts is_number declared inputs hosts r ≡ ok resolved
      → IsResolved id r
      → IsResolved id resolved
  unfolding Inputs.resolve_hosts
  resolve_hosts-kept [] r resolved id e h = subst (IsResolved id) (ok_injective r resolved e) h
  resolve_hosts-kept (host ∷ hosts) r resolved id e h =
      let (values, e1, e2) =
        bind_ok
          (Inputs.add_values is_number (Inputs.on_host is_number host)
            (Inputs.source_of inputs host.id) declared [])
          _ resolved e in
      resolve_hosts-kept hosts (Assoc.insert host.id values r) resolved id e2
        (elim (Bool-cases (host.id == id)) [
          | inl t ↦ record {
            values = values;
            found = get-insert host.id id values r ∙ rw t refl;
            refuse = Inputs.on_host is_number host;
            made =
                subst
                  (λ k.
                    Inputs.add_values is_number (Inputs.on_host is_number host)
                      (Inputs.source_of inputs k) declared []
                    ≡ ok values)
                  (==→eq host.id id t) e1;
          }
          | inr f ↦ record {
            values = h.values;
            found = get-insert host.id id values r ∙ rw f h.found;
            refuse = h.refuse;
            made = h.made;
          }
        ])

  resolve_hosts-IsResolved :
      (hosts : List Host) (r resolved : Assoc InputValues) (host : Host)
      → Inputs.resolve_hosts is_number declared inputs hosts r ≡ ok resolved
      → Memᴰ host hosts
      → IsResolved host.id resolved
  unfolding Inputs.resolve_hosts
  resolve_hosts-IsResolved [] r resolved host e m = elim m [ ]
  resolve_hosts-IsResolved (h ∷ hosts) r resolved host e (Memᴰ.head q) =
      let (values, e1, e2) =
        bind_ok
          (Inputs.add_values is_number (Inputs.on_host is_number h) (Inputs.source_of inputs h.id)
            declared [])
          _ resolved e in
      subst (λ (x : Host). IsResolved x.id resolved) (sym q)
        (resolve_hosts-kept hosts (Assoc.insert h.id values r) resolved h.id e2 (record {
          values = values;
          found = get-insert h.id h.id values r ∙ rw (==_refl h.id) refl;
          refuse = Inputs.on_host is_number h;
          made = e1;
        }))
  resolve_hosts-IsResolved (h ∷ hosts) r resolved host e (Memᴰ.tail m) =
      let (values, e1, e2) =
        bind_ok
          (Inputs.add_values is_number (Inputs.on_host is_number h) (Inputs.source_of inputs h.id)
            declared [])
          _ resolved e in
      resolve_hosts-IsResolved hosts (Assoc.insert h.id values r) resolved host e2 m

no_values : (inputs : List ScriptInput) → All (λ j. lookup j.name [] ≡ none) inputs
no_values [] = tt
no_values (i ∷ inputs) = (refl, no_values inputs)

-- When the inputs of a deployment are accepted, and no two of its scripts' inputs share a name,
-- every host of it has values, and each of its scripts finds in them what it needs: none of its
-- required inputs is missing and no value is refused.
pub script_inputs-resolve_inputs :
    (is_number : Text → Bool) (scripts : List Script) (hosts : List Host) (inputs : ResolvedInputs)
    (resolved : Assoc InputValues) (host : Host) (script : Script)
    → Inputs.resolve_inputs is_number scripts hosts inputs ≡ ok resolved
    → unrepeated_names (Inputs.declared_by scripts) ≡ true
    → Memᴰ host hosts
    → Memᴰ script scripts
    → (values : InputValues) × (Assoc.get host.id resolved ≡ some values)
      × ((given : InputValues) × (Inputs.script_inputs is_number script values ≡ ok given))
unfolding Inputs.resolve_inputs
script_inputs-resolve_inputs is_number scripts hosts inputs resolved host script e u mh ms =
    let declared = Inputs.declared_by scripts in
    let (_, _, e1) = bind_ok (Inputs.check_names false _ declared inputs.shared) _ resolved e in
    let (_, _, e2) =
      bind_ok (Inputs.check_machines declared hosts inputs.per_machine) _ resolved e1 in
    let (_, _, e3) = bind_ok (Inputs.check_declared declared declared) _ resolved e2 in
    let r = resolve_hosts-IsResolved is_number declared inputs hosts [] resolved host e3 mh in
    let found =
      add_values-Found is_number r.refuse (Inputs.source_of inputs host.id) declared [] r.values u
        (no_values declared) r.made in
    (
      r.values,
      r.found,
      script_inputs-ok is_number (Inputs.source_of inputs host.id) r.refuse script r.values (
          All-declared (Found is_number r.refuse (Inputs.source_of inputs host.id) r.values) scripts
            script found ms),
    )

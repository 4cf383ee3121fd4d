-- ===== src/Machine/Request.antt =====
-- Requests of the executor, in internal/machine: their inputs, and what of them is missing.
use zscalerctl.Prelude.{
  Bool, true, false, ◌||◌, Option, none, some, List, [], ◌∷◌, ◌++◌, Text, codes, text_beq, is_empty,
  if◌then◌else◌, trim_space, Result, ok, err, ◌>>=◌, ◌>>◌, refuse_if,
}
use zscalerctl.Resources.Filters.{ProjectedFilter}
use zscalerctl.Machine.Types.{MachineError, error_of}

pub record Filter : Type 0 where
  pub path : Text
  pub operator : Text
  pub value : Text

pub record Input : Type 0 where
  pub product : Text
  pub resource : Text
  pub record_id : Text
  pub fields : List Text
  pub filters : List Filter
  pub search : Text

pub record Request : Type 0 where
  pub capability : Text
  pub operation : Text
  pub input : Option Input

abbrev pub is_resource_read_operation : Text → Bool
is_resource_read_operation op =
    text_beq op (codes "list") || (text_beq op (codes "get") || text_beq op (codes "show"))

abbrev pub trimmed : (Input → Text) → Option Input → Text
trimmed part none = []
trimmed part (some input) = trim_space (part input)

abbrev pub input_product : Request → Text
input_product req = trimmed (λ i. i.product) req.input

abbrev pub input_resource : Request → Text
input_resource req = trimmed (λ i. i.resource) req.input

abbrev pub input_record_id : Request → Text
input_record_id req = trimmed (λ i. i.record_id) req.input

-- A machine error in the scope of a request.
abbrev pub error_at : Text → Text → Request → MachineError
error_at kind message req = record (error_of kind message) {
  operation = req.operation;
  product = input_product req;
  resource = input_resource req;
}

abbrev pub absent : Text → Text → List Text
absent s name = if is_empty s then name ∷ [] else []

abbrev pub missing_of : Request → Option Input → List Text
missing_of req none = codes "input" ∷ []
missing_of req (some input) =
    absent (input_product req) (codes "input.product")
    ++ (absent (input_resource req) (codes "input.resource")
        ++ (if text_beq req.operation (codes "get")
            then absent (input_record_id req) (codes "input.record_id")
            else []))

-- The names of the missing inputs, of `requiredInput`.
unfoldable pub missing_input : Request → List Text
missing_input req = missing_of req req.input

abbrev pub fields_from_input : List Text → List Text
fields_from_input [] = []
fields_from_input (name ∷ names) =
    let rest = fields_from_input names in
    if is_empty (trim_space name) then rest else trim_space name ∷ rest

-- Whether an operator asks for a substring; `none` if it is not supported.
abbrev pub operator_of : Text → Option Bool
operator_of op =
    if text_beq op (codes "=") || text_beq op (codes "exact")
    then some false
    else if text_beq op (codes "~") || text_beq op (codes "contains")
    then some true
    else none

abbrev pub filter_of : Filter → Option Bool → Result Text ProjectedFilter
filter_of f none =
    err (
      codes "input.filters.operator is not supported; use \"=\", \"exact\", \"~\", or \"contains\"")
filter_of f (some substring) =
    ok (record { path = trim_space f.path; value = f.value; substring = substring })

unfoldable pub filters_from_input : List Filter → Result Text (List ProjectedFilter)
unfolding trim_space
filters_from_input [] = ok []
filters_from_input (f ∷ filters) =
    let rest = filters_from_input filters in
    refuse_if (is_empty (trim_space f.path)) (codes "input.filters.field is required")
    >> filter_of f (operator_of (trim_space f.operator))
    >>= λ filter. rest >>= λ more. ok (filter ∷ more)

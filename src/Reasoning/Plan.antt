-- ===== src/Reasoning/Plan.antt =====
-- `StepPlanner.plan` and `ChainOfThought._build_dag` of noema/core/chain_of_thought.py, without the
-- prompts. A step's name is a constructor; `str.lower` is a parameter.
use Prim.Native.String.{String}
use text.Mathlib.Text.{◌==◌ as str_eq}
use noema.Prelude.{
  ℕ, zero, suc, Bool, true, false, ◌&&◌, ◌||◌, List, [], ◌∷◌, ◌++◌, map, ◌==◌, if◌then◌else◌,
}

pub data StepName : Type 0 where
  repair analysis architecture stack components data_model api_design : StepName
  codegen testing security optimization deployment review : StepName

abbrev pub step_id : StepName → ℕ
step_id repair = 0
step_id analysis = 1
step_id architecture = 2
step_id stack = 3
step_id components = 4
step_id data_model = 5
step_id api_design = 6
step_id codegen = 7
step_id testing = 8
step_id security = 9
step_id optimization = 10
step_id deployment = 11
step_id review = 12

abbrev pub same_name : StepName → StepName → Bool
same_name a b = step_id a == step_id b

-- `name in names`
abbrev pub is_in : StepName → List StepName → Bool
is_in a [] = false
is_in a (b ∷ bs) = same_name a b || is_in a bs

abbrev pub has_tag : String → List String → Bool
has_tag t [] = false
has_tag t (u ∷ us) = str_eq t u || has_tag t us

unfoldable pub all_steps : List StepName
all_steps =
    repair ∷ analysis ∷ architecture ∷ stack ∷ components ∷ data_model ∷ api_design ∷ codegen
    ∷ testing ∷ security ∷ optimization ∷ deployment ∷ review ∷ []

unfoldable pub minimal_steps : List StepName
minimal_steps = analysis ∷ architecture ∷ stack ∷ codegen ∷ review ∷ []

-- `steps.append(name)` under a test.
abbrev pub append_if : Bool → StepName → List StepName → List StepName
append_if b name steps = if b then steps ++ name ∷ [] else steps

-- `steps.insert(i, name)`
abbrev pub insert_at : ℕ → StepName → List StepName → List StepName
insert_at zero name steps = name ∷ steps
insert_at (suc i) name [] = name ∷ []
insert_at (suc i) name (s ∷ steps) = s ∷ insert_at i name steps

-- What the tests of `plan` on its arguments come to.
pub record Wishes : Type 0 where
  pub is_minimal : Bool
  pub wants_data : Bool
  pub wants_api : Bool
  pub wants_tests : Bool
  pub wants_security : Bool
  pub wants_speed : Bool
  pub wants_repair : Bool

with_repair : Bool → List StepName → List StepName
with_repair wanted steps =
    if wanted then insert_at (if is_in analysis steps then 1 else 0) repair steps else steps

unfoldable pub plan_steps : Wishes → List StepName
unfolding minimal_steps with_repair
plan_steps w =
    let steps = analysis ∷ architecture ∷ stack ∷ components ∷ [] in
    let steps = append_if w.wants_data data_model steps in
    let steps = append_if w.wants_api api_design steps in
    let steps = steps ++ codegen ∷ [] in
    let steps = append_if w.wants_tests testing steps in
    let steps = append_if w.wants_security security steps in
    let steps = append_if w.wants_speed optimization steps in
    let steps = steps ++ deployment ∷ review ∷ [] in
    if w.is_minimal then minimal_steps else with_repair w.wants_repair steps

is_given : List String → Bool
is_given [] = false
is_given (x ∷ xs) = true

unfoldable pub plan :
    (String → String) → List String → String → String → List String → List StepName
unfolding is_given
plan lower task_tags complexity error_context past_attempts =
    let tags = map lower task_tags in
    let level = lower complexity in
    plan_steps (record {
      is_minimal = str_eq level "trivial" || str_eq level "simple";
      wants_data = has_tag "data" tags || has_tag "database" tags;
      wants_api = has_tag "api" tags || has_tag "web" tags || has_tag "rest" tags;
      wants_tests = has_tag "test" tags || has_tag "qa" tags;
      wants_security = has_tag "security" tags || has_tag "auth" tags;
      wants_speed = has_tag "performance" tags || has_tag "high-load" tags;
      wants_repair = (if str_eq error_context "" then false else true) && is_given past_attempts;
    })

pub record CoTStep : Type 0 where
  pub name : StepName
  pub depends_on : List StepName

-- The `depends_on` entries of the table in `_build_dag`.
unfoldable pub dependencies : StepName → List StepName
dependencies analysis = []
dependencies architecture = analysis ∷ []
dependencies stack = architecture ∷ []
dependencies components = architecture ∷ stack ∷ []
dependencies data_model = components ∷ stack ∷ []
dependencies api_design = components ∷ stack ∷ []
dependencies codegen = stack ∷ api_design ∷ data_model ∷ components ∷ []
dependencies testing = codegen ∷ stack ∷ api_design ∷ components ∷ []
dependencies security = codegen ∷ stack ∷ api_design ∷ components ∷ []
dependencies optimization = codegen ∷ stack ∷ components ∷ architecture ∷ []
dependencies deployment = stack ∷ components ∷ []
dependencies review =
    analysis ∷ architecture ∷ stack ∷ components ∷ data_model ∷ api_design ∷ codegen ∷ testing
    ∷ security ∷ optimization ∷ deployment ∷ []
dependencies repair = analysis ∷ []

-- The names of the first list that are in the second.
unfoldable pub keep_in : List StepName → List StepName → List StepName
keep_in [] step_set = []
keep_in (d ∷ ds) step_set =
    if is_in d step_set then d ∷ keep_in ds step_set else keep_in ds step_set

build_from : List StepName → List StepName → List CoTStep
unfolding keep_in dependencies
build_from [] step_set = []
build_from (n ∷ ns) step_set =
    let rest = build_from ns step_set in
    if is_in n step_set
    then record { name = n; depends_on = keep_in (dependencies n) step_set } ∷ rest
    else rest

unfoldable pub build_dag : List StepName → List CoTStep
unfolding build_from all_steps
build_dag planned_steps = build_from all_steps planned_steps

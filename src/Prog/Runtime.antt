-- ===== src/Prog/Runtime.antt =====
-- The runtime that drives a world's robots by their programs: internal/prog/runtime.go, with `New`
-- and `ClearMemory` of internal/prog/eval.go and `Decode` of internal/prog/program.go. The trace
-- history of a robot that an observer watches is left out.
pub mod Current
use robocolony.Common.{
  ℕ, ◌+◌, ◌==◌, ℤ, eqb_ℤ, pos, Bool, true, false, ◌&&◌, if◌then◌else◌, String, List, [], ◌∷◌,
  Option, none, some, take,
}
use robocolony.Common.Assoc.{lookup, assign, delete}
use robocolony.Sim.World.State.{Robot, RobotView}
use robocolony.Sim.World.State as State
use robocolony.Sim.Tick.{Control, Controllers}
use robocolony.Prog.Catalogue.{eq_string}
use robocolony.Prog.Program.{Rule}
use robocolony.Prog.Structure.{structure, Issue, max_rules}
use robocolony.Prog.Decide.{Trace, decide}

-- A program as the wire has it; the runtime and the evaluator read its rules only.
pub record Program : Type 0 where
  pub v : ℤ
  pub name : String
  pub rules : List Rule

abbrev pub schema_version : ℤ
schema_version = pos 1

pub data DecodeError : Type 0 where
  malformed null_program unsupported_version invalid_structure : DecodeError

pub data Decoded : Type 0 where
  refused : DecodeError → Decoded
  decoded : Program → Decoded

-- A structurally clean program, or the refusal.
abbrev pub checked : Program → List Issue → Decoded
checked p [] = decoded p
checked p (i ∷ is) = refused invalid_structure

-- The switch on the version: one that is left out counts as the current one.
unfoldable pub versioned : Program → Decoded
versioned p =
    if eqb_ℤ p.v (pos 0)
    then checked (record p { v = schema_version }) (structure p.rules)
    else if eqb_ℤ p.v schema_version
    then checked p (structure p.rules)
    else refused unsupported_version

-- What `json.Unmarshal` makes of a text as a pointer to a program: an error, or null, or a program.
abbrev pub Unmarshal : Type 0
Unmarshal = String → Option (Option Program)

abbrev read_program : Option (Option Program) → Decoded
read_program none = refused malformed
read_program (some none) = refused null_program
read_program (some (some p)) = versioned p

unfoldable pub decode : Unmarshal → String → Decoded
decode unmarshal data_text = read_program (unmarshal data_text)

pub record Installed : Type 0 where
  pub program : Program
  pub revision : ℕ

pub record Evaluator : Type 0 where
  pub program : Program
  pub program_id : String
  pub revision : ℕ
  pub trace : Option Trace

pub record Runtime : Type 0 where
  pub programs : List (String × Installed)
  pub robots : List (ℕ × Evaluator)

unfoldable pub new_runtime : Runtime
new_runtime = record { programs = []; robots = [] }

abbrev pub installed_at : Runtime → String → Option Installed
installed_at rt id = lookup eq_string rt.programs id

abbrev pub evaluator_of : Runtime → ℕ → Option Evaluator
evaluator_of rt id = lookup (λ i j. i == j) rt.robots id

-- A missing entry reads as the zero one, of revision 0.
abbrev pub revision_of : Option Installed → ℕ
revision_of none = 0
revision_of (some i) = i.revision

unfoldable pub install : Runtime → String → Program → Runtime
install rt id p = record rt {
  programs =
      assign eq_string rt.programs id
        (record { program = p; revision = revision_of (installed_at rt id) + 1 });
}

-- `New`: a rule list that is too long is cut.
unfoldable pub new_evaluator : String → Installed → Evaluator
new_evaluator id cur = record {
  program = record cur.program { rules = take max_rules cur.program.rules };
  program_id = id;
  revision = cur.revision;
  trace = none;
}

abbrev pub put_evaluator : Runtime → ℕ → Evaluator → Runtime
put_evaluator rt id e = record rt { robots = assign (λ i j. i == j) rt.robots id e }

-- `Decide` of an evaluator that the runtime holds for a robot; it keeps the trace.
unfoldable pub run_evaluator : Runtime → ℕ → Evaluator → RobotView → State.Action × Runtime
run_evaluator rt id e v =
    let (act, tr) = decide e.program.rules v in
    (act, put_evaluator rt id (record e { trace = some tr }))

abbrev pub driven : Runtime → ℕ → Evaluator → Bool → Control Runtime
driven rt id e wipes = record {
  wipes = wipes;
  layer = rt;
  decide = some (λ v. run_evaluator rt id e v);
}

-- A robot with no evaluator, or with one of another program or revision, gets a fresh one.
abbrev pub refreshed : Runtime → Robot → Installed → Bool → Control Runtime
refreshed rt r cur seen =
    let e = new_evaluator r.program_id cur in driven (put_evaluator rt r.id e) r.id e seen

abbrev pub is_current : Evaluator → String → Installed → Bool
is_current e id cur = eq_string e.program_id id && (e.revision == cur.revision)

abbrev pub control_seen : Runtime → Robot → Installed → Option Evaluator → Control Runtime
control_seen rt r cur none = refreshed rt r cur false
control_seen rt r cur (some old) =
    if is_current old r.program_id cur then driven rt r.id old false else refreshed rt r cur true

abbrev pub control_installed : Runtime → Robot → Option Installed → Control Runtime
control_installed rt r none = record {
  wipes = false;
  layer = record rt { robots = delete (λ i j. i == j) rt.robots r.id };
  decide = none;
}
control_installed rt r (some cur) = control_seen rt r cur (evaluator_of rt r.id)

unfoldable pub control : Runtime → Robot → Control Runtime
control rt r = control_installed rt r (installed_at rt r.program_id)

-- `Trace`.
unfoldable pub trace_of : Runtime → ℕ → Option (Option Trace)
trace_of rt id = elim (evaluator_of rt id) [ none ↦ none | some e ↦ some e.trace ]

unfoldable pub forget : Runtime → ℕ → Runtime
forget rt id = record rt { robots = delete (λ i j. i == j) rt.robots id }

-- The pairing that the owner of a world assigns to it.
unfoldable pub runtime_controllers : Controllers Runtime
runtime_controllers = record { control = control; on_destroy = forget }

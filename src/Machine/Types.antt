-- ===== src/Machine/Types.antt =====
-- packages/durable-machine/src/machine.ts and errors.ts: the types of a machine.
use cf_open_agents_api.Prelude.{ℕ, String, Bool, true, false, Option, List, []}

-- `StateSpec`: the schema of the data, the resources it holds, and whether it is terminal.
pub record StateSpec (D : Type 0) : Type 0 where
  pub validates : D → Bool
  pub holds : List String
  pub terminal : Bool

-- `state(data, { holds })`
abbrev pub state : {D : Type 0} → (D → Bool) → List String → StateSpec D
state validates holds = record { validates = validates; holds = holds; terminal = false }

-- `terminal(data)`
abbrev pub terminal_state : {D : Type 0} → (D → Bool) → StateSpec D
terminal_state validates = record { validates = validates; holds = []; terminal = true }

-- `Spec`: the vocabulary of a machine.
pub record Spec (D C : Type 0) : Type 0 where
  pub name : String
  pub states : List (String × StateSpec D)
  pub events : List String
  pub commands : List (String × (C → Bool))

-- `State`: a tag and its data.
pub record State (D : Type 0) : Type 0 where
  pub tag : String
  pub content : D

-- `Event` and `Command`: a tag and the rest of the fields.
pub record Event (P : Type 0) : Type 0 where
  pub tag : String
  pub payload : P

pub record Command (C : Type 0) : Type 0 where
  pub tag : String
  pub payload : C

-- `Next`: what a transition returns.
pub record Next (D C : Type 0) : Type 0 where
  pub to : String
  pub content : D
  pub commands : List (Command C)

pub data Returned (D C : Type 0) : Type 0 where
  promise : Returned D C
  returned : Next D C → Returned D C

-- `Answer`, with what a table that is assembled dynamically can hold besides.
pub data Answer (D P C F : Type 0) : Type 0 where
  ignore : Answer D P C F
  reject : Answer D P C F
  not_a_function : Answer D P C F
  transition : (D → Event P → F → Returned D C) → Answer D P C F

-- A timer's deadline as `timers` derives it.
pub data Deadline : Type 0 where
  undefined : Deadline
  not_finite : Deadline
  at_time : ℕ → Deadline

-- `Implementation`
pub record Implementation (D P C F : Type 0) : Type 0 where
  pub initial : State D
  pub on : List (String × List (String × Answer D P C F))
  pub timers : List (String × (D → List (String × Deadline)))
  pub release : List (String × (State D → Command C))

-- `Planned`: a command that a step enqueues.
pub record Planned (C : Type 0) : Type 0 where
  pub command : Command C
  pub release : Bool
  pub resource : Option String

-- `Step`
pub data Step (D C : Type 0) : Type 0 where
  ignored : State D → Step D C
  rejected : State D → Step D C
  moved : State D → State D → List (Planned C) → Bool → Step D C

-- `Due`
pub record Due : Type 0 where
  pub event : String
  pub time : ℕ

-- What `make` refuses (`fail`), and what an operation throws (errors.ts).
pub data MachineError : Type 0 where
  unknown_state : String → MachineError
  terminal_has_table : String → MachineError
  terminal_holds : String → MachineError
  no_table : String → MachineError
  does_not_answer : String → String → MachineError
  answers_unknown_event : String → String → MachineError
  no_release : String → MachineError
  table_names_unknown_state : String → MachineError
  initial_is_terminal : MachineError
  initial_data_invalid : MachineError
  -- InvalidTransition, by its reason
  no_answer : String → String → MachineError
  returned_promise : String → String → MachineError
  unknown_target : String → MachineError
  invalid_data : String → MachineError
  unknown_command : String → MachineError
  invalid_command : String → MachineError
  deadline_not_finite : String → MachineError
  -- CorruptMachineRecord
  corrupt_state : String → MachineError
  corrupt_command : String → MachineError

-- A value that `make` returned. Its other fields are the functions below.
pub record Machine (D P C F : Type 0) : Type 0 where
  pub definition : Spec D C
  pub implementation : Implementation D P C F

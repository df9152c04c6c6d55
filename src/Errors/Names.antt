-- ===== src/Errors/Names.antt =====
-- packages/agent-api/src/api-error.ts: the name of an `ApiError` reads back, and every failure of the
-- table has a code that the name can carry.
use Prim.Native.String.{[] as end, ◌∷◌ as cons}
use Prim.Native.Char.{code}
use cf_open_agents_api.Prelude.{
  ℕ, ◌≡◌, refl, ap, ◌∙◌, String, true, false, some, nat_eq, nat_beq_iff, arith,
}
use cf_open_agents_api.Errors.Api.{
  Status, status_400, statuses, digits, ApiError, error_name, after_prefix, joined, is_code,
  is_empty, status_of, coded, named, remote_api_error,
}
use cf_open_agents_api.Errors.Crossing.{CrossingFailure, EventCode, crossing_wire, event_code}
use cf_open_agents_api.Errors.Domain.{DefiniteError, row}
use cf_open_agents_api.Errors.Session.{
  PersistenceFailure, persistence_row, LifecycleFailure, lifecycle_row, ConfigurationFailure,
  configuration_row, FileFailure, files_row,
}
use cf_open_agents_api.Errors.Skills.{SkillFailure, skills_row, VaultFailure, vaults_row}
use cf_open_agents_api.Errors.Runtime.{HarnessFailure, harness_row, WorkspaceFailure, workspace_row}
use cf_open_agents_api.Errors.Gateway.{
  GatewayFailure, gateway_row, ProgramFailure, program_row, RequestFailure, request_row,
}

pub after_prefix-joined :
    (prefix text : String) → after_prefix prefix (joined prefix text) ≡ some text
unfolding after_prefix
after_prefix-joined end text = refl
after_prefix-joined (cons c prefix) text =
    ground (arith, after_prefix-joined prefix text, nat_beq_iff (code c) (code c))

-- A code that a name can carry: one or more of a to z and the underscore.
abbrev pub IsCarried : String → Type 0
IsCarried label = (is_empty label ≡ false) × (is_code label ≡ true)

status_read :
    (s : Status) (label : String)
    → status_of statuses (joined (digits s) (joined ":" label)) ≡ some (s, label)
unfolding status_of after_prefix
status_read status_400 label = refl
status_read s label = refl

pub name_read :
    (e : ApiError)
    → IsCarried e.code
    → remote_api_error (record { name = error_name e; message = e.message }) ≡ some e
unfolding remote_api_error
name_read e h =
    ap (named e.message)
      (after_prefix-joined "AgentApiError:" (joined (digits e.status) (joined ":" e.code)))
    ∙ ap (coded e.message) (status_read e.status e.code)
    ∙ ground arith

persistence-IsCarried : (e : PersistenceFailure) → IsCarried (persistence_row e).code
unfolding persistence_row is_code
persistence-IsCarried PersistenceFailure.container_unassigned = (refl, refl)
persistence-IsCarried e = (refl, refl)

lifecycle-IsCarried : (e : LifecycleFailure) → IsCarried (lifecycle_row e).code
unfolding lifecycle_row is_code
lifecycle-IsCarried LifecycleFailure.session_not_deleted = (refl, refl)
lifecycle-IsCarried e = (refl, refl)

configuration-IsCarried : (e : ConfigurationFailure) → IsCarried (configuration_row e).code
unfolding configuration_row is_code
configuration-IsCarried ConfigurationFailure.reserved_tool_name = (refl, refl)
configuration-IsCarried e = (refl, refl)

files-IsCarried : (e : FileFailure) → IsCarried (files_row e).code
unfolding files_row is_code
files-IsCarried FileFailure.input_file_invalid = (refl, refl)
files-IsCarried e = (refl, refl)

skills-IsCarried : (e : SkillFailure) → IsCarried (skills_row e).code
unfolding skills_row is_code
skills-IsCarried SkillFailure.skill_manifest_missing = (refl, refl)
skills-IsCarried e = (refl, refl)

vaults-IsCarried : (e : VaultFailure) → IsCarried (vaults_row e).code
unfolding vaults_row is_code
vaults-IsCarried VaultFailure.credential_not_found = (refl, refl)
vaults-IsCarried e = (refl, refl)

harness-IsCarried : (e : HarnessFailure) → IsCarried (harness_row e).code
unfolding harness_row is_code
harness-IsCarried HarnessFailure.container_retired = (refl, refl)
harness-IsCarried e = (refl, refl)

workspace-IsCarried :
    (shown : ℕ → String) (e : WorkspaceFailure) → IsCarried (workspace_row shown e).code
unfolding workspace_row is_code
workspace-IsCarried shown WorkspaceFailure.environment_list_failed = (refl, refl)
workspace-IsCarried shown e = (refl, refl)

gateway-IsCarried : (e : GatewayFailure) → IsCarried (gateway_row e).code
unfolding gateway_row is_code
gateway-IsCarried GatewayFailure.model_input_missing = (refl, refl)
gateway-IsCarried e = (refl, refl)

program-IsCarried : (e : ProgramFailure) → IsCarried (program_row e).code
unfolding program_row is_code
program-IsCarried ProgramFailure.programmatic_input_too_large = (refl, refl)
program-IsCarried e = (refl, refl)

request-IsCarried : (e : RequestFailure) → IsCarried (request_row e).code
unfolding request_row is_code
request-IsCarried RequestFailure.invalid_json = (refl, refl)
request-IsCarried e = (refl, refl)

-- Every row of the table has a code that a name carries.
pub row-IsCarried : (shown : ℕ → String) (e : DefiniteError) → IsCarried (row shown e).code
unfolding row
row-IsCarried shown (DefiniteError.persistence e) = persistence-IsCarried e
row-IsCarried shown (DefiniteError.lifecycle e) = lifecycle-IsCarried e
row-IsCarried shown (DefiniteError.configuration e) = configuration-IsCarried e
row-IsCarried shown (DefiniteError.files e) = files-IsCarried e
row-IsCarried shown (DefiniteError.skills e) = skills-IsCarried e
row-IsCarried shown (DefiniteError.vaults e) = vaults-IsCarried e
row-IsCarried shown (DefiniteError.harness e) = harness-IsCarried e
row-IsCarried shown (DefiniteError.workspace e) = workspace-IsCarried shown e
row-IsCarried shown (DefiniteError.gateway e) = gateway-IsCarried e
row-IsCarried shown (DefiniteError.program e) = program-IsCarried e
row-IsCarried shown (DefiniteError.request e) = request-IsCarried e

pub crossing-IsCarried : (m : String) (e : CrossingFailure) → IsCarried (crossing_wire m e).code
unfolding crossing_wire is_code
crossing-IsCarried m CrossingFailure.session_not_found = (refl, refl)
crossing-IsCarried m e = (refl, refl)

pub event-IsCarried : (c : EventCode) → IsCarried (event_code c)
unfolding is_code
event-IsCarried EventCode.invalid_runtime_event = (refl, refl)
event-IsCarried EventCode.invalid_runtime_cursor = (refl, refl)

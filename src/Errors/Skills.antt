-- ===== src/Errors/Skills.antt =====
-- packages/agent-api/src/errors.ts: the definite failures of skills and of vaults and
-- credentials.
use Prim.Native.String.{◌++◌ as text_append}
use cf_open_agents_api.Prelude.{String}
use cf_open_agents_api.Errors.Api.{
  ApiError, answer, status_400, status_404, status_409, status_413, status_422,
}

-- `SKILL_LIMITS`
pub data SkillLimit : Type 0 where
  upload : SkillLimit
  expanded : SkillLimit
  bundle : SkillLimit
  stored : SkillLimit

abbrev pub skill_limit_message : SkillLimit → String
skill_limit_message SkillLimit.upload = "Skill upload exceeds 16 MiB"
skill_limit_message SkillLimit.expanded = "Expanded skill exceeds 32 MiB"
skill_limit_message SkillLimit.bundle = "Skill bundles are limited to 4 MB"
skill_limit_message SkillLimit.stored = "Invalid skill size"

pub data SkillReason : Type 0 where
  bundle : SkillReason
  not_installed : SkillReason

abbrev pub skill_reason_message : SkillReason → String
skill_reason_message SkillReason.bundle = "Skill bundle not found"
skill_reason_message SkillReason.not_installed = "Skill is not installed"

-- The failures of skills.
pub data SkillFailure : Type 0 where
  skill_invalid : String → SkillFailure
  skill_too_large : SkillLimit → SkillFailure
  skill_version_is_default : String → SkillFailure
  skill_path_invalid : String → SkillFailure
  skill_manifest_missing : SkillFailure
  skill_missing : SkillReason → SkillFailure
  skill_file_missing : String → SkillFailure
  skill_integrity_mismatch : SkillFailure

-- Their rows of `DEFINITE`.
unfoldable pub skills_row : SkillFailure → ApiError
skills_row (SkillFailure.skill_invalid reason) = answer status_400 "invalid_skill" reason
skills_row (SkillFailure.skill_too_large limit) =
    answer status_413 "skill_too_large" (skill_limit_message limit)
skills_row (SkillFailure.skill_version_is_default version) =
    answer status_409 "default_skill_version"
      "Select another default version or delete the entire skill"
skills_row (SkillFailure.skill_path_invalid path) =
    answer status_400 "invalid_skill_path" (text_append "Invalid skill path: " path)
skills_row SkillFailure.skill_manifest_missing =
    answer status_400 "missing_skill" "A bundle must contain SKILL.md"
skills_row (SkillFailure.skill_missing reason) =
    answer status_404 "skill_missing" (skill_reason_message reason)
skills_row (SkillFailure.skill_file_missing path) =
    answer status_404 "skill_file_missing" "Skill file not found"
skills_row SkillFailure.skill_integrity_mismatch =
    answer status_409 "skill_integrity" "Skill content does not match its reference"

pub data CredentialAmbiguousReason : Type 0 where
  multiple_matches : CredentialAmbiguousReason
  inline_and_vault : CredentialAmbiguousReason

abbrev pub credential_ambiguous_reason_message : CredentialAmbiguousReason → String
credential_ambiguous_reason_message CredentialAmbiguousReason.multiple_matches =
    "Select one matching MCP credential"
credential_ambiguous_reason_message CredentialAmbiguousReason.inline_and_vault =
    "Use either inline or vault authorization"

pub data CredentialExpiredReason : Type 0 where
  expired : CredentialExpiredReason
  refresh_missing : CredentialExpiredReason

abbrev pub credential_expired_reason_message : CredentialExpiredReason → String
credential_expired_reason_message CredentialExpiredReason.expired =
    "MCP credential expired; rotate the credential"
credential_expired_reason_message CredentialExpiredReason.refresh_missing =
    "Missing OAuth refresh configuration"

-- `REFRESH_FAILURES`
pub data RefreshFailure : Type 0 where
  endpoint : RefreshFailure
  response : RefreshFailure
  timeout : RefreshFailure
  unknown : RefreshFailure

abbrev pub refresh_failure_message : RefreshFailure → String
refresh_failure_message RefreshFailure.endpoint = "The token endpoint failed; retry later"
refresh_failure_message RefreshFailure.response = "Invalid OAuth refresh response"
refresh_failure_message RefreshFailure.timeout = "OAuth refresh timed out"
refresh_failure_message RefreshFailure.unknown =
    "OAuth refresh outcome is unknown; rotate the credential before retrying"

pub data CredentialRotationRule : Type 0 where
  auth_type : CredentialRotationRule
  refresh_missing : CredentialRotationRule
  auth_method : CredentialRotationRule

abbrev pub credential_rotation_rule_message : CredentialRotationRule → String
credential_rotation_rule_message CredentialRotationRule.auth_type =
    "Credential authentication type cannot change"
credential_rotation_rule_message CredentialRotationRule.refresh_missing =
    "Credential has no refresh configuration"
credential_rotation_rule_message CredentialRotationRule.auth_method =
    "OAuth authentication method cannot change"

-- The failures of vaults and credentials.
pub data VaultFailure : Type 0 where
  credential_ambiguous : CredentialAmbiguousReason → VaultFailure
  credential_not_found : VaultFailure
  credential_expired : CredentialExpiredReason → VaultFailure
  credential_refresh_rejected : VaultFailure
  credential_refresh_failed : RefreshFailure → VaultFailure
  credential_refresh_indeterminate : VaultFailure
  credential_changed : VaultFailure
  credential_rotation_invalid : CredentialRotationRule → VaultFailure

-- Their rows of `DEFINITE`.
unfoldable pub vaults_row : VaultFailure → ApiError
vaults_row (VaultFailure.credential_ambiguous reason) =
    answer status_400 "ambiguous_credential" (credential_ambiguous_reason_message reason)
vaults_row VaultFailure.credential_not_found =
    answer status_404 "not_found" "Matching attached credential not found"
vaults_row (VaultFailure.credential_expired reason) =
    answer status_422 "credential_expired" (credential_expired_reason_message reason)
vaults_row VaultFailure.credential_refresh_rejected =
    answer status_422 "credential_refresh_rejected"
      "The token endpoint rejected the OAuth refresh; rotate the credential"
vaults_row (VaultFailure.credential_refresh_failed reason) =
    answer status_422 "credential_refresh_failed" (refresh_failure_message reason)
vaults_row VaultFailure.credential_refresh_indeterminate =
    answer status_409 "outcome_unknown" "OAuth refresh outcome is unknown; rotate the credential"
vaults_row VaultFailure.credential_changed =
    answer status_409 "credential_changed" "Credential was rotated during refresh"
vaults_row (VaultFailure.credential_rotation_invalid rule) =
    answer status_400 "invalid_request" (credential_rotation_rule_message rule)

-- ===== src/Examples.antt =====
-- Runs of the models at concrete inputs.
mod Script
mod PatchRuns
mod ClientRuns
mod UpdateRuns
mod SecretRuns
mod InputRuns
mod IncidentRuns
mod PollerRuns
mod ActionRuns
mod StompRuns
mod ServiceRuns
mod ExportRuns
mod OauthRuns
mod CtsRuns
mod UiRuns
mod WantedRuns

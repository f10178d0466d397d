-- ===== src/Examples.antt =====
-- Runs of the model on concrete inputs, and the theorems at them.
mod Data
mod OptimizerRuns
mod CommandRuns
mod RecoveryRuns
mod IngestRuns
mod BackupRuns
mod SshRuns
mod UptimeRuns
mod DashboardRuns
mod ScheduleRuns
mod ServerRuns
mod TargetRuns

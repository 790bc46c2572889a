-- ===== src/Tests.antt =====
-- Test data, and the theorems at concrete inputs.
mod Data
mod AuthCases
mod BackendCases
mod BackupCases
mod ExchangeCases
mod UsersCases
mod SyncCases
mod SchedulerCases
mod TasksCases
mod SettingsCases
mod PeersCases
mod UpdateCases
mod DiskCases
mod FilesCases
mod ItemCases
mod TenantCases
mod ContributorCases
mod LauncherCases

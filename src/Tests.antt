-- ===== src/Tests.antt =====
-- Runs of the model on small inputs, and the theorems at concrete data, by component.
mod Brackets
mod Includes
mod Files
mod FileChecks
mod HeaderGuard
mod FileData
mod Lint
mod Nesting
mod Cleansing
mod Config
mod IncludeWhatYouUse
mod Driver
mod Macros
mod Semicolons

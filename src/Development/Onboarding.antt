-- ===== src/Development/Onboarding.antt =====
-- Repository onboarding: OnboardingStore and RepositoryOnboardingController of
-- ae_control_plane/development.py.
pub mod Record
pub mod Store
pub mod Detect
pub mod Controller
pub mod Activation
pub mod Duties
pub mod Steps
pub mod Chained
pub mod Runs
mod Samples

-- ===== src/Auth.antt =====
-- crates/zbacs-auth/src/policy.rs and types.rs: when the operating system must verify the person
-- before a key is used (T23). Times are seconds (u64), the count of recent approvals a u32.
pub mod Setup
pub mod Runs
pub mod Identity
pub mod Life
pub mod FirstRun
pub mod Living
pub mod Kept
pub mod Again
mod Tests
use z_bacs.Prelude.{
  ℕ, ◌-◌, ◌%◌, ◌^◌, Bool, true, false, ◌&&◌, List, leb, if◌then◌else◌, length, keep,
}
use z_bacs.Prelude.Bytes.{Bytes}
use z_bacs.Session.{Permission, edit}

pub data Confirmation : Type 0 where
  not_required os_user_verification : Confirmation

abbrev pub is_os : Confirmation → Bool
is_os not_required = false
is_os os_user_verification = true

pub record ApprovalContext : Type 0 where
  pub permission : Permission
  pub file_id : Bytes

pub record ConfirmationPolicy : Type 0 where
  pub edit_requires_confirmation : Bool
  pub burst_limit : ℕ
  pub burst_window_secs : ℕ

-- `ConfirmationPolicy::default`.
unfoldable pub default_policy : ConfirmationPolicy
default_policy = record {
  edit_requires_confirmation = true;
  burst_limit = 5;
  burst_window_secs = 600;
}

abbrev pub is_edit : Permission → Bool
is_edit edit = true
is_edit _ = false

abbrev pub in_window : ConfirmationPolicy → ℕ → ℕ → Bool
in_window p now t = leb (now - p.burst_window_secs) t && leb t now

unfoldable pub required :
    ConfirmationPolicy → ApprovalContext → Confirmation → List ℕ → ℕ → Confirmation
required p ctx device_setting recent_approval_ts now =
    let recent = length (keep (in_window p now) recent_approval_ts) in
    if is_os device_setting
    then os_user_verification
    else (if p.edit_requires_confirmation && is_edit ctx.permission
        then os_user_verification
        else (if leb p.burst_limit (recent % 2 ^ 32) then os_user_verification else not_required))

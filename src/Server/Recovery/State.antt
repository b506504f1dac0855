-- ===== src/Server/Recovery/State.antt =====
-- `state_of` of crates/mpc-server/src/recovery.rs, and how it agrees with what complete_recovery
-- does.
use mpc_ext.Base.{ℕ, ◌≡◌, refl, ◌∙◌, Option, none, some, arith, leb, if◌then◌else◌}
use mpc_ext.Server.Types.{Text, Status, Db, RecoveryRequest}
use mpc_ext.Server.Recovery.{
  RecoveryCompletion, done, not_ready, gone, complete_recovery, recovery_request, judge,
}
use mpc_ext.Server.Recovery.Completion.{complete-judge}

pub data RecoveryState : Type 0 where
  awaiting : RecoveryState
  cooling_until : ℕ → RecoveryState
  ready : RecoveryState
  was_completed : RecoveryState
  was_cancelled : RecoveryState
  lapsed : RecoveryState

unfoldable pub cooling_state : Option ℕ → ℕ → RecoveryState
cooling_state none now = lapsed
cooling_state (some at) now = if leb at now then ready else cooling_until at

unfoldable pub state_of_status : Status → RecoveryRequest → ℕ → RecoveryState
unfolding cooling_state
state_of_status Status.awaiting_assertion r now =
    if leb now r.expires_unix then awaiting else lapsed
state_of_status Status.cooling r now =
    if leb now r.expires_unix then cooling_state r.ready_unix now else lapsed
state_of_status Status.completed r now = was_completed
state_of_status Status.cancelled r now = was_cancelled
state_of_status Status.expired r now = lapsed

unfoldable pub state_of : RecoveryRequest → ℕ → RecoveryState
unfolding state_of_status
state_of r now = state_of_status r.status r now

-- What a completion at the same time answers.
abbrev pub outcome_of : RecoveryState → RecoveryCompletion
outcome_of awaiting = gone
outcome_of (cooling_until at) = not_ready at
outcome_of ready = done
outcome_of was_completed = gone
outcome_of was_cancelled = gone
outcome_of lapsed = gone

judge-state_of_status :
    (s : Status) (r : RecoveryRequest) (now : ℕ)
    → r.status ≡ s
    → judge (some r) now ≡ outcome_of (state_of_status s r now)
unfolding judge state_of_status
judge-state_of_status s r now e = ground arith

-- A completion does what the status call at the same second announces: it succeeds exactly when the
-- state is ready, refuses with the same time while the request is cooling, and answers that the
-- request is gone in every other state.
pub complete_agrees_with_state :
    (rid w : Text) (now : ℕ) (db : Db) (r : RecoveryRequest)
    → recovery_request rid w db ≡ some r
    → (complete_recovery rid w now db).0 ≡ outcome_of (state_of r now)
unfolding state_of
complete_agrees_with_state rid w now db r found =
    complete-judge rid w now db ∙ rw found (judge-state_of_status r.status r now refl)

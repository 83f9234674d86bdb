-- ===== src/Transaction/Machine/Step.antt =====
-- crates/policysql-transaction/src/machine/step.rs: the transitions of the machine.
pub mod Context
pub mod Plumbing
pub mod Answers
pub mod Closing
pub mod Driver
pub mod Quiet
pub mod Answered
pub mod Decided
pub mod Ends
pub mod Entropy
pub mod Sent
pub mod Safety
pub mod Outputs
pub mod Services
pub mod Begin
pub mod Results
pub mod Statement
pub mod Commit
pub mod Replies
pub mod Committing
pub mod Completed
pub mod Keeps
pub mod Interrupted
pub mod Recorded
pub mod Closed
pub mod Timer
pub mod Timed
pub mod Abandoned
pub mod Tokens
pub mod Checks
pub mod Verdicts
pub mod Held
pub mod Validating
pub mod CallbackLane
pub mod Querying
pub mod Ordered
pub mod Outcomes
pub mod Callbacks
pub mod CallbackQuery
pub mod CallbackOutcome
pub mod Issued

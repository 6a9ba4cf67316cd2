-- ===== src/Validate.antt =====
-- validate: the errors of an operation's input fields, and the directive that finds them.
pub mod Errors
pub mod Rules
pub mod Violations
pub mod Directive
mod Examples

-- ===== src/Prog.antt =====
-- Robot programs: internal/prog.
pub mod Catalogue
pub mod Program
pub mod Matcher
pub mod Decide
pub mod Structure
pub mod Runtime
pub mod Validate
pub mod Tests

-- ===== src/Parser.antt =====
-- cyarg/parser.c and cyarg/ast.c: the parser, from the tokens of the scanner to a syntax tree.
pub mod Kinds
pub mod Rules
pub mod Syntax
pub mod State
pub mod Numbers
pub mod Nodes
pub mod Expressions
pub mod Precedence
pub mod Progress
pub mod Ending
pub mod Stuck
pub mod Total
pub mod Reports
pub mod Shorter
pub mod Statements
pub mod Declarations
pub mod Finish
pub mod Loops
pub mod Whole
pub mod Terminates
pub mod Grammar
pub mod Reading
pub mod Operands
pub mod Runs
pub mod RoundTrip
mod Tests

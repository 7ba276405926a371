-- ===== src/Interface.antt =====
-- The program's side of the predictor interface (cond_branch_predictor_interface.cc and
-- my_cond_branch_predictor.h).
pub mod Graph
pub mod Sample
pub mod Hooks
pub mod Summary
mod Tests

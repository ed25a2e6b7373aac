-- ===== src/Arglayout.antt =====
-- tools/arglayout/main.go: the check that a call, literal or signature spread over several lines has
-- each element on its own line, and its repair. Syntax is what the tool reads of go/ast and go/token,
-- Check its `violations`, Rewrite its `outermost` and `rewrite`, Files its `process`, walk and `main`.
pub mod Syntax
pub mod Check
pub mod Rewrite
pub mod Files

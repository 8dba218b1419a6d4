-- ===== src/Syntax.antt =====
-- The syntax-error fixes of src/core/orchestrator.py.
pub mod Base
pub mod Lines
pub mod Indent
pub mod Misaligned
pub mod Backward
pub mod Collect
pub mod Patches
pub mod Search
pub mod Confirmed
pub mod Above
pub mod Chosen
pub mod Collected
pub mod Repaired
pub use Base.{Python, SyntaxError}
unfoldable pub use Base.{line_at, missing_colon_fix}
unfoldable pub use Lines.{looks_like_span_boundary, header_line_number, map_range, slice, span_text}

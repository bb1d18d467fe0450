-- ===== src/Pagination.antt =====
-- Keyset pagination of src/common/pagination: the sort parameter, the cursor, the clause that
-- seeks past it, and the page.
pub mod Sorting
pub mod Cursor
pub mod Keyset
pub mod Page
pub mod Walk
pub mod Cuts
pub mod Seeking
pub mod Traversal

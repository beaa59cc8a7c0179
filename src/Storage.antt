-- ===== src/Storage.antt =====
-- internal/storage: values and rows, cells, the header, pages, cache, transactions, the B-tree.
pub mod Value
pub mod Row
pub mod Cell
pub mod Header
pub mod Buffer
pub mod Page
pub mod Lru
pub mod Pager
pub mod Transaction
pub mod BTree
mod Tests

-- ===== src/Inventory.antt =====
-- The inventory and the missing parts of sets: backend/flipradar/services/inventory_service.py.
pub mod Rows
pub mod Stock
pub mod Shelf
pub mod Checklist
pub mod Orders
pub mod Parts
pub mod Purchases
mod Tests

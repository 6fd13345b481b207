-- ===== src/Property.antt =====
-- backend/src/building, floor and space: the landlords' buildings, their floors and the spaces on
-- them. The columns that no decision reads, such as areas, rates and places on a plan, are left out.
pub mod Slugs
pub mod Cascade
pub mod Buildings
pub mod Floors
pub mod Naming
pub mod Cleared
pub mod Orphans
pub mod Spaces
pub mod Publishing
mod Tests

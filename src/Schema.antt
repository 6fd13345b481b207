-- ===== src/Schema.antt =====
-- backend/prisma/schema.prisma: the rows that the services read and write, and the database. The
-- values of the status columns are those of backend/src/constants/enums.ts; a column is a text,
-- so a booking or invoice may hold another. Times are milliseconds, and an amount is a
-- double, counted as in Base/Double.
mod Status
mod Rows
mod Lookups
pub use Status.*
pub use Rows.*
unfoldable pub use Lookups.*

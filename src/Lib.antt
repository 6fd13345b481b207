-- ===== src/Lib.antt =====
-- LeaseManager is a multi-tenant service for letting office space. A client organisation owns
-- buildings, floors and spaces; a renter organisation books them, is invoiced and pays. This library
-- models the services of its backend that decide who may do what, what becomes of a booking, and
-- what is owed.
--
-- The parts, and the files that model them:
--   * backend/src/common/services/access-policy.service.ts (AccessPolicyService): Access. Who may
--     read or change a building, a floor, a space, a booking; what the lists show.
--   * backend/src/booking/booking.service.ts (BookingService): Booking. Rules has its private
--     helpers (`checkAvailability` is `check_availability`), Create has `create`, Review the approval
--     and the stay, Workflow the reception desk, Queries the lists. Machine puts the handlers that
--     move a stored booking under one `perform`, next to the state machine that they follow.
--   * backend/src/billing/billing.service.ts (BillingService): Billing. FromBooking has
--     `generateInvoiceFromBooking`, Invoices the invoices and their reminders, Payments the payments,
--     Lines the invoices and lines that a user writes.
--   * backend/src/promotion-code/promotion-code.service.ts (PromotionCodeService): Promotion.
--   * backend/src/lease-contract/lease-contract.service.ts (LeaseContractService): Contract.
--   * backend/src/booking-application/booking-application.service.ts (BookingApplicationService):
--     Application. Requests has `create` and `createGuest`, Accounts the account of a guest, Review
--     `accept` and `refuse`, Calendar `addMonths`, counted in UTC.
--   * backend/src/maintenance/maintenance.service.ts (MaintenanceService): Maintenance. Tickets has how
--     a ticket is raised, Actions what is done to a stored one, Lists the lists and their counts. Life
--     puts the actions under one `perform`, next to the state machine of a ticket.
--   * backend/src/building/building.service.ts, floor/floor.service.ts and space/space.service.ts:
--     Property.Buildings, Property.Floors and Property.Spaces. Slugs has `toSlug` and
--     `buildUniqueSlug`; Cascade has common/utils/cascade-delete-spaces.util.ts and
--     ensure-client-property-defaults.util.ts.
--   * backend/src/common/guards/rate-limit.guard.ts (RateLimitGuard): Guards.RateLimit.
--   * backend/src/common/utils/addon-pricing.util.ts: Pricing.
--   * backend/src/constants/enums.ts and role-groups.ts: Roles and Schema/Status;
--     backend/prisma/schema.prisma: Schema/Rows, with the relations in Schema/Lookups.
--
-- BookingService asks AccessPolicyService before it touches a stored booking, and BillingService for
-- the invoice of a confirmed one; all of them share the database.
--
-- State. `Db` is the database, a table for each model, and the list of the mails sent. A handler is
-- a function from a database to a result and a database (Service): it returns a value or throws one
-- of NestJS's exceptions, and what was written before a throw stays written, but inside the
-- `$transaction` of an application's acceptance. The Prisma client is
-- a parameter (Prisma): a type of tables and the calls that the services make, with what each call
-- does to the rows. Memory gives lists as such tables, and Sample a small database on which the
-- examples run.
--
-- Numbers. An id is a number, and the ids that uuid makes are an argument of a call, as is the
-- clock; a theorem says where a new id must be new. A moment is a number of milliseconds. An amount
-- is a double, counted in 2 ^ -1074, the step of the least of them, and a sum of amounts or a multiple
-- of one is rounded to 53 bits as JavaScript rounds it (Base/Double), in the order of the additions. A
-- percentage is a number of millionths of a percent, and a percentage of an amount is rounded down. The
-- amounts of a promotion code are in millionths of the currency. A floor number counts from the least one of its column,
-- so that floor 1 is 2 ^ 31 + 1. Most loops are over a list. The search for a free slug runs on fuel,
-- one round more than there are rows, and printing a number n runs n + 1 rounds; neither runs out.
-- Finding the bits of a double beyond 53 halves it, at most once for each unit of it.
--
-- Not modelled: the other services of the backend, the controllers and their pipes, the frontend;
-- what the database does by itself when a row is deleted (`onDelete`), but where an invoice, a
-- building or a floor is removed; numbers that overflow to infinity;
-- the wording of mails and notifications; uploads, whose address is an argument; the order of lists
-- and their pages; concurrent handlers, but for the redemption of promotion codes.
pub mod Base
pub mod Prisma
pub mod Memory
pub mod Sample
pub mod Service
pub mod Tables
pub mod Roles
pub mod Schema
pub mod Access
pub mod Application
pub mod Pricing
pub mod Billing
pub mod Booking
pub mod Promotion
pub mod Contract
pub mod Maintenance
pub mod Property
pub mod Guards

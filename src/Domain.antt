-- ===== src/Domain.antt =====
-- packages/domain/src: the rules of the product.
pub mod Calendar
pub mod Platform
pub mod Validation
pub mod Planning
pub mod Money
pub mod Operations
pub mod Rsvp
pub mod Envelope
pub mod Countries
pub mod Cursor
pub mod Guests
pub mod Requests
pub mod RunSheet
pub mod Service
mod Tests
mod CursorTests
mod RequestTests

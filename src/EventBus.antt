-- ===== src/EventBus.antt =====
-- packages/event-bus: the client of NATS that the services publish to and subscribe with.
pub mod Client
pub mod Consumer
pub mod Subscriber
pub mod Effects
pub mod Delivery
pub mod Metering
pub mod Passports
mod Tests

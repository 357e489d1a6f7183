-- ===== src/Delivery.antt =====
-- internal/web/delivery.go: the queue that turns a paid order into worldserver commands.
-- `Parcel` splits items into stacks and mails, `Training` prepares a level 80 character, `State` has
-- the tables and the statements, `Steps` runs one fulfilment step, `Queue` claims and fulfils an
-- order, `Admin` has the staff's handlers.
pub mod Parcel
pub mod State
pub mod Steps
pub mod Training
pub mod Queue
pub mod Admin

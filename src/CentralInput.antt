-- ===== src/CentralInput.antt =====
-- src/central_input.c: the input keys and the motion totals that the central tracks for each pipe.
-- An event handed to ZMK (`zmk_split_transport_central_peripheral_event_handler`) is an entry of the
-- list that a function answers with, in the order of the calls; all of a call's are the pipe's.
pub mod State
pub mod Deliver
pub mod Reconcile
pub mod Laws
pub mod Told
pub mod Agree
pub mod Distinct

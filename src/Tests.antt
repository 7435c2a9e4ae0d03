-- ===== src/Tests.antt =====
-- The theorems applied to concrete inputs, part by part.
mod Anchors
mod LittleEndian
mod Keepalive
mod HopPolicy
mod HopPeripheral
mod CentralKeys
mod Totals
mod Cobs
mod WireFrame
mod HopCentral
mod Rendezvous
mod CentralInput
mod EventWire
mod LinkReply
mod PeripheralInput
mod PeripheralMotion
mod WireLink
mod LinkPeripheral
mod CentralPipes
mod Peripheral
mod Relay

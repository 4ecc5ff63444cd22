-- ===== src/Tests.antt =====
-- Runs of the models on concrete inputs.
mod App
mod Password
mod Scenario
mod Frames
mod Relay
mod Sessions
mod Upkeep
mod Account
mod Mirror
mod Serving
mod Exchanging
mod Command
mod Dialing
mod Program
mod Rules
mod Transfers
mod Naming
mod Starting
mod Settings

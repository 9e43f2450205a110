-- ===== src/Tests.antt =====
-- Examples of the theorems, and runs of the definitions on small inputs.
mod Packets
mod Agents
mod Players
mod Registrations
mod Streams
mod Calls
mod Commands
mod Keepalives
mod Registries
mod Frames
mod Startcodes
mod Videos
mod Accounts

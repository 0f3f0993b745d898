-- ===== src/Tests.antt =====
-- Runs of the definitions, and the theorems at concrete inputs.
mod Scanning
mod Prompting
mod Terminals
mod Memory
mod Files
mod Lifecycle
mod Wire
mod Variants
mod Definitions
mod Trees
mod Resolving
mod Loading
mod Binding
mod Secrets
mod Processes
mod Messages
mod Options
mod Storing
mod Decoding

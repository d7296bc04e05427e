-- ===== src/Samples.antt =====
-- Concrete runs of the theorems, on small tables and states.
mod Projects
mod Deliveries
mod Flows
mod Inbox
mod Runs
mod Agents
mod Desks
mod Skills
mod Tools
mod Requests

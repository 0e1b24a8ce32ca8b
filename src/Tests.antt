-- ===== src/Tests.antt =====
-- The theorems at concrete inputs: for each that has conditions, a case in which they hold.
mod Texts
mod Requests
mod Keys
mod Dumps
mod Lists
mod Tables
mod Strings
mod Sets
mod Hashes
mod Queues

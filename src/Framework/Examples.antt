-- ===== src/Framework/Examples.antt =====
-- The theorems of the framework, applied.
mod Cuts
mod Data
mod Hosts
mod Served

-- ===== src/Tests.antt =====
-- The code on small concrete configurations, and each property applied to one of them.
mod Data
mod Instance
mod Push
mod Statements
mod Hostgroups
mod Unions
mod Natives
mod Restarts
mod Pods
mod Reports
mod Rotations
mod Configs
mod Clusters

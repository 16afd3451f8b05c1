-- ===== src/Controller.antt =====
-- The package controller: what a silo is made of, and its life from NewSilo to Close.
pub mod Types
pub mod Options
pub mod Bases
pub mod Interfaces
pub mod Silo

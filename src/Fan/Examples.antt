-- ===== src/Fan/Examples.antt =====
-- Runs of the functions of `fc::Fan`, and their theorems at concrete fans.
mod Rationals
mod Curves
mod Maps
mod Texts
mod Tests
mod Updates

-- ===== src/Clock.antt =====
-- include/basket/clock/global_clock.h and src/basket/clock/global_clock.cpp: `basket::global_clock`, the
-- time since a server started.
pub mod Defs
pub mod Objects
pub mod Readings
pub mod Segments

-- ===== src/Sequencer.antt =====
-- include/basket/sequencer/global_sequence.h and src/basket/sequencer/global_sequence.cpp:
-- `basket::global_sequence`, a counter on each server.
pub mod Defs
pub mod Objects
pub mod Numbers
pub mod Segments

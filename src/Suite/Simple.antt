-- ===== src/Suite/Simple.antt =====
-- smmalloc_test01.cpp: the simple tests.
pub mod Alignment
pub mod Sizes
pub mod Blocks
pub mod Resizing

-- ===== src/Tags.antt =====
-- The integer sets behind src/f_tag_action.c and src/f_tag_compare.c.
pub mod Sets
pub mod Buffer
pub mod Action
pub mod Compare
mod Tests

-- ===== src/Board.antt =====
-- src/board.rs: the board over a client.
pub mod Find
pub mod Replies
pub mod Posts

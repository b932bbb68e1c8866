-- ===== src/Hosts.antt =====
-- src/hosts.rs: where the client points unless told otherwise.
use aamio_rust.Base.{Bytes, codes}

unfoldable pub default_host : Bytes
default_host = codes "https://aamio.at"

unfoldable pub default_board_host : Bytes
default_board_host = codes "https://board.aamio.at"

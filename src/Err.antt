-- ===== src/Err.antt =====
-- include/lwip/err.h: the values of `err_t`.
pub data Err : Type 0 where
  ok mem buf timeout rte in_progress val would_block in_use already is_conn : Err
  conn abrt rst clsd arg netif : Err

-- ===== src/React.antt =====
-- react/src: what the React providers share.
pub mod Registry

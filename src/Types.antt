-- ===== src/Types.antt =====
-- include/defs.h: `t_base_type` and `t_type`; src/type.c in the children. A `t_type *` is a value of
-- `Ty`, with `null` for NULL: types are trees that are copied, never shared or changed in place here.
pub mod Base
pub mod Cast
pub mod Equal
pub mod Dup
pub mod Text
pub mod GetType

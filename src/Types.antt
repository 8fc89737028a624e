-- ===== src/Types.antt =====
-- src/types: the types of columns and the values that are not primitive.
pub mod SqlType
pub mod Decimal
mod Tests

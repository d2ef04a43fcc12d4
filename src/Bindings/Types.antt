-- ===== src/Bindings/Types.antt =====
-- The calls of `register_types` and of its functions for nested namespaces.
pub mod Values
pub mod Objects
pub mod Devices
pub mod Nested
pub use Values.{types_through_time_with_unit}
pub use Objects.{types_through_ipv4_mask_checker}
pub use Devices.{types_through_log_node_printer}
pub use Nested.{types_hash, types_hash_function, types_traced_value_callback}

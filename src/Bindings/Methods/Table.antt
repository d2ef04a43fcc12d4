-- ===== src/Bindings/Methods/Table.antt =====
-- The table of `register_methods`, in the order of its calls.
pub mod Values
pub mod Objects
pub mod Devices
use cs621_network_programmin.Common.{List, ◌++◌, String}
use cs621_network_programmin.Bindings.Syntax.{Member}
use Values.{method_table_values}
use Objects.{method_table_objects}
use Devices.{method_table_devices}

abbrev pub method_table : List (String × List Member)
method_table = method_table_values ++ (method_table_objects ++ method_table_devices)

-- ===== src/Bindings/Methods.antt =====
-- The second half of bindings/modulegen__gcc_LP64.py: what is registered on each class.
pub mod Address
pub mod BufferIterator
pub mod DefaultDeleter
pub mod Ipv6Address
pub mod NodeContainer
pub mod PcapFile
pub mod TagBuffer
pub mod Int64x64t
pub mod RandomVariableStream
pub mod Time
pub mod AttributeAccessor
pub mod DoubleValue
pub mod Ipv4AddressChecker
pub mod NixVector
pub mod PointToPointChannel
pub mod TimeValue
pub mod CallbackImpl
pub mod Table

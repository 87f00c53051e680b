-- ===== src/OsLib.antt =====
-- config/setup/os_lib-tmplt.c: the template that the C compiler turns into a list of constants.
-- `Macros` has the preprocessor's state, `Headers` to `Secure` the sections of the template in
-- their order, `Template` the whole file.
pub mod Macros
pub mod Entries
pub mod Headers
pub mod General
pub mod Sizes
pub mod Errno
pub mod Families
pub mod Secure
pub mod Template
pub mod Windows
pub mod Values
pub mod OpenSslValues
pub mod Sites
pub mod Linux
mod Tests

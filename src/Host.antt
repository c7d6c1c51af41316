-- ===== src/Host.antt =====
-- What the program is given from outside: the database behind gorm, the operating system of the
-- node, the clock and the generator of identifiers. Each is a record of operations over a state of
-- its own, of which the program's functions are parameters.
pub mod Rows
pub mod Db
pub mod Os
pub mod World
pub mod Working

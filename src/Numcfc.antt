-- ===== src/Numcfc.antt =====
-- numcfc: the foundation classes.
pub mod IniFile
pub mod ThreadRunner
pub mod Time
pub mod Logger
pub mod IdGenerator
mod Tests

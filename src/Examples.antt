-- ===== src/Examples.antt =====
-- Concrete third-party crates, tests of the models, and applications of the theorems.
mod Integers
mod Messages
mod Witnesses
mod StreamWitnesses
mod HpkeWitnesses
mod HeaderWitnesses
mod ConfigWitnesses
mod ProgramWitnesses
mod ExchangeWitnesses

-- ===== src/Js.antt =====
-- The parts of JavaScript that the program uses: strings, values, exceptions, state.
pub mod Text
pub mod Value
pub mod Effect
pub mod Platform
pub mod Storage

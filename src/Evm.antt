-- ===== src/Evm.antt =====
-- packages/evm: the errors of src/errors.ts that the modelled parts throw.
pub mod Stack
pub mod Memory
pub mod Arithmetic
pub mod Shifts
pub mod TransientStorage
pub mod Journal
pub mod Gas

pub data EvmError : Type 0 where
  stack_overflow stack_underflow : EvmError

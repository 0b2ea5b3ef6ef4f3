-- ===== src/Tests/Evm.antt =====
-- The stack, the memory, the arithmetic handlers and the transient storage.
use mathlib.Core.List.{reverse}
use simple_p2p_blockchain.Common.{
  none, some, ℕ, List, [], ◌∷◌, ◌≡◌, ◌⊎◌, ◌≤◌, ◌<◌, ◌+◌, ◌-◌, ◌^◌, ◌%◌, ◌*◌, ◌&&◌, arith, true,
  false, ok, err, length, get_or, drop, leb, ltb, if◌then◌else◌, ◌==◌, All,
}
use simple_p2p_blockchain.Common.Int.{pos, tdiv, tmod}
use simple_p2p_blockchain.Evm.{stack_underflow}
use simple_p2p_blockchain.Evm.Stack
use simple_p2p_blockchain.Evm.Stack.{Stack}
use simple_p2p_blockchain.Evm.Stack.Items.{items, items_of, IsValid}
use simple_p2p_blockchain.Evm.Stack.Refinement
use simple_p2p_blockchain.Evm.Stack.Refinement.{
  Call, run_all, step_all, run_all-step_all, reverse-get_stack,
}
use simple_p2p_blockchain.Evm.Memory.{Memory, write, read}
use simple_p2p_blockchain.Evm.Memory.Contents
use simple_p2p_blockchain.Evm.Memory.Contents.{byte_at, write_lem}
use simple_p2p_blockchain.Evm.Memory.Reads.{read_lem, read-write}
use simple_p2p_blockchain.Evm.Arithmetic.{
  two_pow256, IsWord, op_sub, arity, handle, exp_op, sdiv, smod, add, sub, from_twos,
}
use simple_p2p_blockchain.Evm.Arithmetic.Power.{exp_op-pow}
use simple_p2p_blockchain.Evm.Arithmetic.Signed.{sdiv_lem, smod_lem, sub-add}
use simple_p2p_blockchain.Evm.Arithmetic.Handlers.{handle_lem, pushed}
use simple_p2p_blockchain.Evm.Arithmetic.Words.{stack_after}
use simple_p2p_blockchain.Evm.Shifts.{shl, shl-pow}
use simple_p2p_blockchain.Evm.TransientStorage.{new_transient, zero_word}
use simple_p2p_blockchain.Evm.TransientStorage.Views.{view}
use simple_p2p_blockchain.Evm.TransientStorage.Calls
use simple_p2p_blockchain.Evm.TransientStorage.Calls.{Script, run, spec, transaction_lem}

-- Two items, and a third place that a pop has left behind.
abbrev start : Stack
start = record { store = 7 ∷ 9 ∷ 4 ∷ []; max_height = 1024; len = 2 }

start-IsValid : IsValid start
start-IsValid = omega arith

abbrev calls : List Call
calls =
    Call.push 3
    ∷ Call.swap 2
    ∷ Call.dup 1
    ∷ Call.exchange 0 3
    ∷ Call.pop_n 2
    ∷ Call.pop
    ∷ Call.peek 1
    ∷ []

run_all-step_all_example :
    Refinement.Agrees 1024 (run_all calls start) (step_all 1024 calls (items start))
run_all-step_all_example = run_all-step_all calls start start-IsValid

reverse-get_stack_example : reverse (Stack.get_stack start) ≡ items start
reverse-get_stack_example = reverse-get_stack start start-IsValid

start-IsWord : All IsWord (items start)
start-IsWord = unfold items items_of in (omega arith, (omega arith, tt))

handle_lem_example :
    ((length (items start) < arity op_sub)
      × (handle op_sub start ≡ err stack_underflow)
      × (stack_after op_sub (items start) ≡ none))
    ⊎ ((t : Stack) × (arity op_sub ≤ length (items start))
        × (handle op_sub start ≡ ok t)
        × (items t ≡ pushed op_sub (items start) ∷ drop (arity op_sub) (items start))
        × IsValid t
        × All IsWord (items t)
        × (stack_after op_sub (items start) ≡ some (items t)))
handle_lem_example = handle_lem op_sub start start-IsValid start-IsWord

exp_op-pow_example : exp_op 2 257 ≡ 2 ^ 257 % two_pow256
exp_op-pow_example = exp_op-pow 2 257

shl-pow_example : shl 300 5 ≡ 5 * 2 ^ 300 % two_pow256
shl-pow_example = shl-pow 300 5

abbrev minus_seven : ℕ
minus_seven = two_pow256 - 7

sdiv_lem_example :
    from_twos (sdiv minus_seven 2)
    ≡ (if 2 == 0 then pos 0 else tdiv (from_twos minus_seven) (from_twos 2))
sdiv_lem_example = sdiv_lem minus_seven 2 (omega arith) (omega arith) (λ h. unfold from_twos in cc)

smod_lem_example :
    from_twos (smod minus_seven 2)
    ≡ (if 2 == 0 then pos 0 else tmod (from_twos minus_seven) (from_twos 2))
smod_lem_example = smod_lem minus_seven 2 (omega arith) (omega arith)

sub-add_example : sub (add minus_seven 9) 9 ≡ minus_seven
sub-add_example = sub-add minus_seven 9 (omega arith) (omega arith)

abbrev small_memory : Memory
small_memory = record { store = [] }

abbrev written : List ℕ
written = 1 ∷ 2 ∷ 3 ∷ []

small_memory-IsValid : Contents.IsValid small_memory
small_memory-IsValid = omega arith

write_lem_example :
    (n : Memory) × (write 30 (length written) written small_memory ≡ ok n)
    × Contents.IsValid n
    × ((i : ℕ)
        → byte_at n i ≡ (
            if leb 30 i && ltb i (30 + length written)
            then get_or written (i - 30) 0
            else byte_at small_memory i))
write_lem_example = write_lem 30 written small_memory small_memory-IsValid

read_lem_example :
    (length (read 10 3 false small_memory).0 ≡ 3)
    × ((i : ℕ)
        → get_or (read 10 3 false small_memory).0 i 0
          ≡ (if ltb i 3 then byte_at small_memory (10 + i) else 0))
    × ((i : ℕ) → byte_at (read 10 3 false small_memory).1 i ≡ byte_at small_memory i)
    × Contents.IsValid (read 10 3 false small_memory).1
read_lem_example = read_lem 10 3 false small_memory small_memory-IsValid

page_written : (n : Memory) × (write 30 (length written) written small_memory ≡ ok n)
page_written =
    let (n, e, valid, contents) = write_lem 30 written small_memory small_memory-IsValid in (n, e)

read-write_example : (read 30 (length written) false page_written.0).0 ≡ written
read-write_example =
    read-write 30 written false small_memory page_written.0 small_memory-IsValid page_written.1

-- An address, and a key.
abbrev address : List ℕ
address = 1 ∷ []

abbrev key : List ℕ
key = zero_word

-- A write, a call that writes and reverts, and a call that writes and commits.
abbrev script : Script
script = Script.write address key (5 ∷ []) (
    Script.call (Script.write address key (6 ∷ []) Script.done) true
      (Script.call (Script.write address key (7 ∷ []) Script.done) false Script.done))

transaction_lem_example :
    Calls.Agrees new_transient
      (run (λ bytes. bytes) script new_transient)
      (spec (λ bytes. bytes) script (view new_transient.storage))
transaction_lem_example = transaction_lem (λ bytes. bytes) script

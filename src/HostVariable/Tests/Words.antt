-- ===== src/HostVariable/Tests/Words.antt =====
-- The computations on the flags at single words, and the handler of SIGINT.
use robot_ipc.Common.{ℕ, ◌<◌, ◌≡◌, ◌⊎◌, refl, arith, some}
use robot_ipc.HostVariable.Flags.{acquire_read, release_read, claim, publish, drop_claim}
use robot_ipc.Common.{◌-◌, ◌+◌, none}
use robot_ipc.Word.{nibble}
use robot_ipc.HostVariable.Flags.Target.{Stores}
use robot_ipc.HostVariable.Flags.Readers.{acquire_read_lem, acquire_read-full, release_read-Stores}
use robot_ipc.HostVariable.Flags.Writers.{
  IsFree, Claimed, claim_cases, Publishes, publish-Publishes, drop_claim-Stores,
}
use robot_ipc.Common.{false}
use robot_ipc.HostVariable.Signal.{
  Signals, custom, sig_dfl, handler_wrap, set_handler_wrap, interrupt_twice,
}

-- The fields of a new variable, and of one with fourteen readers of buffer 0.
fields :
    (nibble 0x0FFFFFFFFFFF0000 15 ≡ 0)
    × (nibble 0x0FFFFFFFFFFF0000 0 ≡ 0)
    × (nibble 0x0FFFFFFFFFFF0001 0 ≡ 1)
    × (nibble 0x0FFFFFFFFFFF000E 15 ≡ 0)
    × (nibble 0x0FFFFFFFFFFF000E 0 ≡ 14)
unfolding nibble
fields = (refl, refl, refl, refl, refl)

claim_cases_example :
    ((claim 0x0FFFFFFFFFFF0000 ≡ none) × ((b : ℕ) → b < 15 → ¬ IsFree 0x0FFFFFFFFFFF0000 b))
    ⊎ ((b w' : ℕ) × Claimed 0x0FFFFFFFFFFF0000 b w')
claim_cases_example = claim_cases 0x0FFFFFFFFFFF0000 (omega arith) (omega (arith, fields.0))

acquire_read_lem_at :
    let w : ℕ = 0x0FFFFFFFFFFF0000 in
    (w' : ℕ) × (acquire_read w ≡ some (nibble w 15, w'))
    × Stores w (nibble w 15) (nibble w (nibble w 15) + 1) w'
acquire_read_lem_at =
    acquire_read_lem 0x0FFFFFFFFFFF0000 (omega arith) (rw fields.0 (omega (arith, fields.1)))

acquire_read-full_at : acquire_read 0x0FFFFFFFFFFF000E ≡ none
acquire_read-full_at = acquire_read-full 0x0FFFFFFFFFFF000E (omega arith) (rw fields.3 fields.4)

release_read-Stores_at :
    let w : ℕ = 0x0FFFFFFFFFFF0001 in Stores w 0 (nibble w 0 - 1) (release_read 0 w)
release_read-Stores_at =
    release_read-Stores 0x0FFFFFFFFFFF0001 0 (omega arith) (omega arith) (omega (arith, fields.2))

publish-Publishes_at : Publishes 0x0FFFFFFFFFFF00F0 1 (publish 4 0x0FFFFFFFFFFF00F0)
publish-Publishes_at = publish-Publishes 0x0FFFFFFFFFFF00F0 1 (omega arith) (omega arith)

drop_claim-Stores_at : Stores 0x0FFFFFFFFFFF00F0 1 0 (drop_claim 4 0x0FFFFFFFFFFF00F0)
drop_claim-Stores_at = drop_claim-Stores 0x0FFFFFFFFFFF00F0 1 (omega arith) (omega arith)

-- A program that handles SIGINT by its function 7.
abbrev program : Signals
program = record { should_wait = 0; next_handler = sig_dfl; installed = custom 7 }

interrupt_twice_example :
    handler_wrap 3 (set_handler_wrap false false (set_handler_wrap false false program)) 2 ≡ none
interrupt_twice_example = interrupt_twice program 3 refl

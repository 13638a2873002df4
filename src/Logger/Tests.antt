-- ===== src/Logger/Tests.antt =====
-- Codes of include/robot_ipc_constant.h.
use robot_ipc.Common.{◌/◌, ◌+◌, ◌≤◌, ◌≡◌, ◌⊎◌, arith, pos}
use robot_ipc.Logger.{code_to_level, severity, fatal, code_to_level_mono}

-- WARN_SHM_QUFULL and ERR_PIPE_REQ.
code_to_level_mono_at :
    (severity (code_to_level (pos 101)) ≤ severity (code_to_level (pos 202)))
    × ((severity (code_to_level (pos 101)) ≡ 101 / 100 + 1)
        ⊎ ((3 ≤ 101 / 100) × (code_to_level (pos 101) ≡ fatal)))
code_to_level_mono_at = code_to_level_mono 101 202 (omega arith) (omega arith)

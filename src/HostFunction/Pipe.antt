-- ===== src/HostFunction/Pipe.antt =====
-- What the two sides share: the names of the pipes, and the constants of
-- include/robot_ipc_constant.h and src/config.h.
use robot_ipc.Common.{ℕ, List, [], ◌∷◌, ◌++◌, ltb, if◌then◌else◌, length}
use robot_ipc.Posix.{M, pure, fault}
use Prim.Native.Char.{code}
use Prim.Native.String.{String}

abbrev pub codes : String → List ℕ
codes String.[] = []
codes (String.◌∷◌ c s) = code c ∷ codes s

abbrev pub name_max_length : ℕ
name_max_length = 256

abbrev pub pipe_name_prefix : List ℕ
pipe_name_prefix = codes "/tmp/robot_ipc/"

abbrev pub robot_ok : ℕ
robot_ok = 0

abbrev pub err_pipe_req : ℕ
err_pipe_req = 202

abbrev pub err_pipe_close : ℕ
err_pipe_close = 203

-- `sprintf(name_buf, PIPE_NAME_PREFIX "%s<suffix>", name)`, with the zero byte at its end.
abbrev pub format_path : List ℕ → List ℕ → M (List ℕ)
format_path name suffix =
    let path = pipe_name_prefix ++ name ++ suffix in
    if ltb (length path) name_max_length then pure path else fault

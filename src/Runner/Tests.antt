-- ===== src/Runner/Tests.antt =====
-- The runner on one capacity.
use cs621_network_programmin.Common.{◌+◌, ◌*◌, ◌≡◌, some, length, get_elem?, arith}
use cs621_network_programmin.Runner.{commands, run, command_line, run-commands}

run-commands_example :
    (get_elem? (commands run) (2 * 9 + 1) ≡ some (command_line (9 + 1) 1))
    × (length (commands run) ≡ 20)
run-commands_example = run-commands 9 1 (omega arith) (omega arith)

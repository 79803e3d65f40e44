-- ===== src/Lib.antt =====
-- Verification of strataqemu, the host side of the QEMU tests of strata: it loads the recipe of a guest,
-- builds a QEMU command line, runs a throwaway machine over an overlay of a golden image, finds the
-- graphical session in the guest, runs the steps of a flow over SSH, and writes down how the run went.
--
-- The parts, the files that model them, and the code:
--
-- - Ports: strataqemu/ports.py. Ports/Alloc has allocate_port, allocate_ssh_port and allocate_vnc_port;
--   binding a socket is a parameter that changes a world. Ports/Retry has retry_on_addr_in_use, by
--   recursion on the number of attempts. Ports/Alloc/Display has vnc_tcp_port of strataqemu/qemu.py.
-- - Session: strataqemu/session.py. Session/Parse reads the output of loginctl, Session/Select has the
--   loop of select_wayland_session, Session/Env has choose_wayland_display, choose_hyprland_instance,
--   session_env and target_graphical_session over listings of directories.
-- - Artifacts: strataqemu/artifacts.py and strataqemu/config.py, the paths. A path is a text, and
--   joining puts a slash between; expanding the home directory and environment variables are inputs.
-- - Qemu: strataqemu/qemu.py. Qemu/Argv has build_qemu_argv, with Path.resolve as a parameter;
--   Qemu/Shutdown has run_shutdown, with the four hooks as parameters, and Qemu/Machine Machine.shutdown
--   with its hooks. Qemu/Qga has qga_guest_file_write, Qemu/Stream has _recv_exact.
--   Qemu/Spawn has the common body of _spawn_qemu and _spawn_overlay_vm; the sleep behind the start of the
--   process is an effect that an interrupt may end, and then QEMU runs and no Machine is returned. An
--   interrupt between two other calls is not modelled.
-- - Guest: strataqemu/guest.py. Guest/Toml has the values of tomllib, Guest/Fields the readers of single
--   fields, Guest/Recipe the data classes, Guest/Load has Guest.load and load_guest. Which files there
--   are and what they parse to is a parameter.
-- - Versions and Guests: strataqemu/tests_spec.py, the release versions and archive names, and what
--   each guest supports.
-- - Cloudinit: strataqemu/cloudinit.py, the checks of the dumps of the Omarchy configurator; json.dumps
--   is a parameter.
-- - Smoke: strataqemu/tests_spec.py, what is read from the smoke scripts and the commands that start
--   them; shlex.quote is a parameter.
-- - Overlay: strataqemu/overlay.py, the command lines of qemu-img; Overlay/Create has create_overlay,
--   copy_uefi_vars and prune. Cli: strataqemu/cli.py, the arguments of --install-from; Cli/Host has
--   check_host, which finds the firmware and the key for a build.
-- - Ssh: strataqemu/ssh.py, the argument lists of ssh and scp.
-- - Steps: strataqemu/tests_spec.py, the steps of a flow. Steps/Remote has ssh_run and the copies by scp,
--   Steps/Wait the polling loops, Steps/Screenshot, Steps/SessionOnly, Steps/Version, Steps/About,
--   Steps/Install, Steps/Update and Steps/Omarchy the functions of these names. The state is the world,
--   the commands that were sent, and what ssh.log was given.
-- - Build: strataqemu/image_build.py. Build/Facts has the names and commands, Build/Bench _ssh_run and scp,
--   Build/Wait the waiting loops (Build/Wait/Wizard has kick_omarchy3_skip_wizard), Build/Spawn _spawn_qemu
--   by Qemu/Spawn, Build/Live build_live: Prepare up to the machine, Setup with it, Stop its end,
--   Finish the golden image and the `finally`, Entry run_image_build. The state keeps the variable
--   `machine` and a trace of what was spawned, stopped, removed, installed, linked and written.
-- - RunTest: strataqemu/run_test.py. RunTest/Request has the choice of the flow in run_run_test,
--   RunTest/Run the run behind it, as code that changes a state and may raise (RunTest/Exec), and
--   RunTest/Spawn has _spawn_overlay_vm, RunTest/VmRun run_vm_run, RunTest/Disks the overlay of a run and its end. What
--   touches QEMU, SSH and the file system is a record of effects on a world that is not described. The
--   state keeps the variable `machine`, the flag `result["ok"]`, and a trace of what was spawned, stopped,
--   written, kept and discarded.
-- - Base: lists, tests, exceptions as results, and Python's strings. Tests: runs at concrete inputs.
--
-- They interact this way: RunTest asks Versions and Guests which flow may run; Session, Qemu and Ports
-- serve the machine that RunTest spawns, and Steps works in its guest; Build makes the golden image that
-- RunTest lays its overlay on, and spawns its own machine by Qemu and Ports; Guest gives the recipe for
-- all of them.
--
-- Bounds and fuel. A text is a list of code points, and the character classes (white space, digits, lower
-- case, line ends) are those of ASCII. `decimal n` writes n on n + 1 rounds of fuel, one for each digit,
-- which is more than it uses. `parse_int` takes words of digits, since a user id has no sign. The loop
-- `wait_until` of the steps has a deadline: its fuel is the timeout in milliseconds and one more round, and
-- each round sleeps for at least one. The loops of an image build count their attempts, so they recur on
-- the attempts that are left. The loop that writes a file through the guest agent and the one of
-- _recv_exact have a round of fuel for each byte, since each round takes one at least. All other
-- recursion is structural. Times are in milliseconds. Python's integers are unbounded, so no word size
-- occurs.
--
-- Not modelled: the rest of the guest agent, QMP and VNC clients, what a subprocess does, rendering of seeds,
-- argument parsing by argparse, digests of files, logging, and the scripts strataqemu/vm_live.py and
-- strataqemu/spike.py, which run whole guests by hand. The text of an exception leaves out the time limit.
pub mod Base
pub mod Ports
pub mod Session
pub mod Artifacts
pub mod Qemu
pub mod Guest
pub mod Versions
pub mod Guests
pub mod Cloudinit
pub mod Smoke
pub mod Ssh
pub mod Steps
pub mod Overlay
pub mod Cli
pub mod Build
pub mod RunTest
pub mod Tests

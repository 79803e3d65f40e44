-- ===== src/RunTest.antt =====
-- strataqemu/run_test.py: the command `run-test`, from its arguments to its exit status.
pub mod Request
pub mod Exec
pub mod Run
pub mod VmRun
pub mod Spawn
pub mod Disks

-- ===== src/Examples/Programs.antt =====
-- The programs' theorems at one command line each.
use colex.Base.{true, [], ◌∷◌, refl}
use colex.Base.Outcome.{ok, ◌>>=◌}
use colex.Os.{perform, remove_all, temp_dir, delete_link}
use colex.Os.Called.{IsCalled}
use colex.Net.{create_net_bridge, must_be_absent}
use colex.Programs.{Standard}
use colex.InitProcess.Confinement.{IsConfined}
use colex.Examples.InitProcess.{kernel}
use colex.Programs.TestProgram.Isolation.{isolated_test_main-IsConfined}
use colex.Programs.TestProgram.{IsolatedArgs, isolated_test_main, TestFlags, run_program, test_main}
use colex.Programs.TestProgram.Cleaning.{run_program-IsCalled, test_main-IsCalled}
use colex.Examples.{quiet, host, subnet, address}
use colex.Examples.Silos.{with_devices}

abbrev standard : Standard
standard = record {
  parse_cidr = λ a. ok (address 0, subnet);
  abs = λ path. ok path;
  split_commas = λ s. s ∷ [];
}

abbrev test_flags : TestFlags
test_flags = record {
  cmd = "/bin/sh";
  env_list = "";
  root_fs = "./";
  hostname = "silo";
  make_baseline = true;
  enable_net = true;
  bridge_name = "silobr";
  veth_name = "siloveth";
  bridge_addr = "192.168.153.1/24";
  silo_addr = "192.168.153.2/24";
}

run_program-IsCalled_example :
    IsCalled
      (delete_link "silobr")
      (run_program with_devices test_flags
        (address 0)
        subnet.mask
        (address 0)
        subnet.mask
        "/tmp/root"
        host).1
unfolding create_net_bridge must_be_absent perform ◌>>=◌
run_program-IsCalled_example =
    run_program-IsCalled with_devices test_flags (address 0) (address 0) subnet.mask subnet.mask
      "/tmp/root" host refl refl refl

test_main-IsCalled_example :
    IsCalled
      (remove_all (quiet.text [] (temp_dir "colex_exec_root") ∷ []))
      (test_main quiet standard test_flags host).1
test_main-IsCalled_example =
    test_main-IsCalled quiet standard test_flags host (address 0, subnet) (address 0, subnet) refl
      refl refl refl

abbrev isolated : IsolatedArgs
isolated = record {
  root_fs = "/tmp/root" ∷ [];
  cmd = "/bin/sh";
  env_list = "A=1";
  hostname = "silo";
}

isolated_test_main-IsConfined_example :
    IsConfined kernel isolated.root_fs (isolated_test_main kernel standard isolated []).1
isolated_test_main-IsConfined_example = isolated_test_main-IsConfined kernel standard isolated

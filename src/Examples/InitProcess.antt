-- ===== src/Examples/InitProcess.antt =====
-- The first process of one silo, on a kernel where the interface "v1" comes up after three pauses.
use colex.Base.{◌+◌, ◌<◌, false, none, some, List, [], ◌∷◌, ◌≡◌, inl, inr, refl, arith, leb}
use colex.Base.Outcome.{ok}
use colex.Os.{FilePath, InvocationInfo}
use colex.InitProcess.{Kernel, Step, run_silo, wait_until_up, isolated_main}
use colex.InitProcess.Waiting.{
  pauses, EndsSoon, IsSettled, wait_until_up-EndsSoon, wait_until_up-ok,
}
use colex.InitProcess.Confinement.{IsConfined, isolated_main-IsConfined}
use colex.InitProcess.Starting.{IsAwaited, isolated_main-run_silo}

abbrev invocation : InvocationInfo
invocation = record {
  id = 57 ∷ [];
  id_hex = "39";
  hostname = "web";
  on_start_commands =
      record { cmd = "ip"; args = "route" ∷ []; wait_for_interface = "v1" }
      ∷ record { cmd = "true"; args = []; wait_for_interface = "" }
      ∷ [];
  binds = record { sys_path = "/srv"; silo_path = "/srv"; is_file = false } ∷ [];
  cmd = "/bin/sh";
  args = [];
  env = [];
}

abbrev pub kernel : Kernel
kernel = record {
  fails = λ past s. none;
  not_exist = λ e. false;
  invocation = λ root. some invocation;
  is_up = λ past name. leb 3 (pauses past);
  address_count = λ past name. 1;
}

v1-IsSettled : IsSettled kernel 3 "v1"
v1-IsSettled = record {
  there = λ past h. refl;
  up = λ past h. ground arith;
  listed = λ past h. refl;
  addressed = λ past h. omega arith;
}

v1-IsSettled_late : IsSettled kernel 999 "v1"
v1-IsSettled_late = record {
  there = λ past h. refl;
  up = λ past h. ground arith;
  listed = λ past h. refl;
  addressed = λ past h. omega arith;
}

abbrev root : FilePath
root = "/tmp/silo" ∷ []

wait_until_up-EndsSoon_example : EndsSoon kernel 3000 (wait_until_up kernel 1000 "v1" [])
wait_until_up-EndsSoon_example = wait_until_up-EndsSoon kernel 1000 "v1" []

none_yet : 3 < pauses [] + 1000
unfolding pauses
none_yet = omega arith

wait_until_up-ok_example : (wait_until_up kernel 1000 "v1" []).0 ≡ ok tt
wait_until_up-ok_example =
    wait_until_up-ok kernel 3 "v1" v1-IsSettled 1000 [] (omega arith) none_yet

isolated_main-IsConfined_example : IsConfined kernel root (isolated_main kernel root []).1
isolated_main-IsConfined_example = isolated_main-IsConfined kernel root

v1-IsAwaited :
    IsAwaited kernel (record { cmd = "ip"; args = "route" ∷ []; wait_for_interface = "v1" })
unfolding IsAwaited
v1-IsAwaited = inr v1-IsSettled_late

true-IsAwaited : IsAwaited kernel (record { cmd = "true"; args = []; wait_for_interface = "" })
unfolding IsAwaited
true-IsAwaited = inl refl

isolated_main-run_silo_example :
    (before : List Step) × (isolated_main kernel root []
      ≡ (ok tt, run_silo "/bin/sh" [] [] ∷ before))
isolated_main-run_silo_example =
    isolated_main-run_silo kernel root (λ past s. refl) invocation refl
      (v1-IsAwaited, (true-IsAwaited, tt))

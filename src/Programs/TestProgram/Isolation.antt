-- ===== src/Programs/TestProgram/Isolation.antt =====
-- colex-test/main.go: the root of the isolated process.
use colex.Base.{[]}
use colex.Base.Yields.{Yields-bind, Yields-keep, Yields→Keeps}
use colex.InitProcess.{Kernel}
use colex.InitProcess.Confinement.{
  IsConfined, Phase, set_root_fs-Phase, mount_proc_at-Keeps, step-Moved, Moved-keep, plain_keep,
}
use colex.Programs.{Standard}
use colex.Programs.TestProgram.{IsolatedArgs, isolated_test_main}

module _ (kernel : Kernel) (standard : Standard) (args : IsolatedArgs) where
  isolated-Phase :
      Phase kernel args.root_fs
        (IsConfined kernel args.root_fs)
        (IsConfined kernel args.root_fs)
        (isolated_test_main kernel standard args)
  unfolding isolated_test_main
  isolated-Phase =
      Yields-bind _ _ (plain_keep kernel args.root_fs _ (mount_proc_at-Keeps kernel args.root_fs _))
        (λ u1. Yields-bind _ _ (set_root_fs-Phase kernel args.root_fs) (λ u2.
          Yields-bind _ _ (Moved-keep kernel args.root_fs _ (step-Moved kernel args.root_fs _))
            (λ u3.
              Yields-keep _ (step-Moved kernel args.root_fs _) (λ a s (m, c). c) (λ s (m, c). c))))

  -- The isolated process of colex-test runs the command only after pivot_root with its root and the detaching
  -- of the old root have both succeeded, however its setup goes.
  pub isolated_test_main-IsConfined :
      IsConfined kernel args.root_fs (isolated_test_main kernel standard args []).1
  unfolding IsConfined
  isolated_test_main-IsConfined =
      Yields→Keeps (isolated_test_main kernel standard args) isolated-Phase [] tt

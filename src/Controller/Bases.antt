-- ===== src/Controller/Bases.antt =====
-- controller/bases.go: what each base does to a silo's root folder. The bases are pointers, so Setup
-- also writes to the base: the path of the busybox archive, and the file data that it lets go.
use Prim.Native.String.{◌++◌ as join_text}
use colex.Base.{String, Option, some, List, [], ◌∷◌, ◌++◌, if◌then◌else◌, same_text}
use colex.Base.Outcome.{
  Error, Exec, Result, ok, system, tarball_path_unset, pure, raise, modify, gets, within, attempt,
  continue, ◌>>=◌, ◌>>◌,
}
use colex.Os.{
  Os, Host, FilePath, Call, perform, ask_text, getwd, run, run_on, mkdir_all, stat, write_file,
}
use colex.Controller.Types.{
  Base, busybox, tarball, dev_nodes, file_loader, file_loader_tarball, bind, Ctx,
}

abbrev pub on_host : {A : Type 0} → Exec Host A → Exec Ctx A
on_host = within (λ (c : Ctx). c.host) (λ h c. record c { host = h })

-- A base while its Setup runs.
pub record Placed : Type 0 where
  pub self : Base
  pub ctx : Ctx

abbrev pub on_ctx : {A : Type 0} → Exec Ctx A → Exec Placed A
on_ctx = within (λ (p : Placed). p.ctx) (λ c p. record p { ctx = c })

abbrev pub become : Base → Exec Placed Unit
become b = modify (λ (p : Placed). record p { self = b })

abbrev root_of : Exec Placed FilePath
root_of = gets (λ (p : Placed). p.ctx.silo.root)

abbrev word : String → FilePath
word w = w ∷ []

-- tar --overwrite -C root -xf archive
abbrev untar : FilePath → FilePath → List FilePath
untar root archive = word "tar" ∷ word "--overwrite" ∷ word "-C" ∷ root ∷ word "-xf" ∷ archive ∷ []

abbrev mknod : FilePath → String → String → List FilePath
mknod root node minor =
    word "mknod"
    ∷ word "-m"
    ∷ word "666"
    ∷ (root ++ node ∷ [])
    ∷ word "c"
    ∷ word "1"
    ∷ word minor
    ∷ []

module _ (os : Os) where
  unfoldable pub call : Call → Exec Placed Unit
  call c = on_ctx (on_host (perform os c))

  -- The archive's path, found once: busybox.tar in the working directory, or the one for this machine.
  unfoldable pub busybox_path : FilePath → Exec Host FilePath
  busybox_path [] = do
    wd ← ask_text os (getwd [])
    if same_text os.arch "amd64"
        then pure (wd ∷ "busybox.tar" ∷ [])
        else pure (wd ∷ join_text "busybox-" (join_text os.arch ".tar") ∷ [])
  busybox_path (dir ∷ rest) = pure (dir ∷ rest)

  -- `_, err := os.Stat(path); os.IsNotExist(err)`, and then MkdirAll
  unfoldable pub make_if_missing : FilePath → Option Error → Exec Placed Unit
  make_if_missing path (some (system e)) = if os.not_exist e then call (mkdir_all path) else pure tt
  make_if_missing path _ = pure tt

  -- Setup of each base. What the source defers to the return, dropping the data, is done at once.
  unfoldable pub setup_base : Base → Exec Placed Unit
  setup_base (busybox path) = do
    archive ← on_ctx (on_host (busybox_path path))
    become (busybox archive)
    root ← root_of
    call (run (untar root archive))
  setup_base (tarball path) = do
    root ← root_of
    if same_text path "" then raise tarball_path_unset else call (run (untar root (word path)))
  setup_base dev_nodes = do
    root ← root_of
    call (run (mknod root "/dev/null" "3"))
    call (run (mknod root "/dev/zero" "5"))
    call (run (mknod root "/dev/random" "8"))
    call (run (mknod root "/dev/urandom" "9"))
  setup_base (file_loader remote content) = do
    become (file_loader remote [])
    root ← root_of
    call (write_file (root ++ remote ∷ []) content)
  setup_base (file_loader_tarball remote content) = do
    become (file_loader_tarball remote [])
    root ← root_of
    let output : FilePath = root ++ remote ∷ []
    found ← attempt (call (stat output))
    make_if_missing output found
    call (run_on (untar output (word "-")) content)
  setup_base (bind sys_path silo_path is_file) = modify (λ (p : Placed). record p {
    ctx = record p.ctx {
      silo = record p.ctx.silo {
        binds =
            p.ctx.silo.binds
            ++ record { sys_path = sys_path; silo_path = silo_path; is_file = is_file } ∷ [];
      };
    };
  })

  -- Every Teardown returns nil.
  unfoldable pub teardown_base : Base → Exec Ctx Unit
  teardown_base b = pure tt

  -- The base goes back to its place in s.bases, also after an error.
  unfoldable pub after_base :
      List Base
      → List Base
      → (List Base → Exec Ctx Unit)
      → Result {0} Unit × Placed
      → Result {0} Unit × Ctx
  after_base done rest further (r, p) =
      continue (r, record p.ctx { silo = record p.ctx.silo { bases = done ++ p.self ∷ rest } })
        (λ _. further (done ++ p.self ∷ []))

  -- The loop of Init over s.bases: `done` are the bases that it has passed.
  unfoldable pub setup_bases : List Base → List Base → Exec Ctx Unit
  setup_bases done [] c = (ok tt, c)
  setup_bases done (b ∷ rest) c =
      after_base done rest (λ passed. setup_bases passed rest)
        (setup_base b (record { self = b; ctx = c }))

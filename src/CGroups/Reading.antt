-- ===== src/CGroups/Reading.antt =====
-- cgroups.go: what reads the values of control groups, and the list of subsystems. Nothing calls it yet.
use colex.Base.{ℕ, String, Bool, false, List, [], ◌∷◌, ◌++◌, ◌==◌, if◌then◌else◌}
use colex.Base.Int.{ℤ, pos}
use colex.Base.Map.{Map, insert}
use colex.Base.Outcome.{Result, Exec, ok, err, panic, system, pure, lift, ◌>>=◌}
use colex.Base.Text.{split_text}
use colex.Os.{Os, Host, FilePath, ask_text, read_file}

-- strings.Fields, strconv.ParseInt after strings.TrimSpace, strconv.ParseUint, and fmt.Sscanf of
-- "%s %d %d %d"
pub record Reader : Type 0 where
  pub fields : String → List String
  pub parse_int : String → Result ℤ
  pub parse_uint : String → Result ℕ
  pub scan_subsystem : String → String × (ℤ × (ℤ × ℤ))

-- Whether a %d was 1
abbrev is_one : ℤ → Bool
is_one (pos n) = n == 1
is_one _ = false

abbrev skip_first : List String → List String
skip_first [] = []
skip_first (line ∷ lines) = lines

module _ (os : Os) (reader : Reader) where
  unfoldable pub read_int64_value : FilePath → String → Exec Host ℤ
  read_int64_value dir file = do
    content ← ask_text os (read_file (dir ++ file ∷ []))
    lift (reader.parse_int content)

  abbrev pub pair_with : String → Result ℕ → Result (String × ℕ)
  pair_with key (ok n) = ok (key, n)
  pair_with key (err e) = err (system "unable to convert param value")
  pair_with key panic = panic

  abbrev pub pair_of : List String → Result (String × ℕ)
  pair_of (key ∷ value ∷ []) = pair_with key (reader.parse_uint value)
  pair_of _ = err (system "incorrect key-value format")

  unfoldable pub parse_pair_value : String → Result (String × ℕ)
  parse_pair_value s = pair_of (reader.fields s)

  unfoldable pub enabled_from : List String → Map ℤ → Map ℤ
  enabled_from [] found = found
  enabled_from (line ∷ lines) found =
      let (subsystem, (hierarchy, (num, enabled))) = reader.scan_subsystem line in
      enabled_from lines (if is_one enabled then insert subsystem hierarchy found else found)

  -- the first line of /proc/cgroups is a comment
  unfoldable pub get_enabled_subsystems : Exec Host (Map ℤ)
  get_enabled_subsystems = do
    content ← ask_text os (read_file ("/proc/cgroups" ∷ []))
    pure (enabled_from (skip_first (split_text 10 content)) [])
